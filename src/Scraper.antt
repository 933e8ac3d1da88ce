-- ===== src/Scraper.antt =====
-- The scraper, app/services/scraper: its records (`Records`) and their validation (`Validator`),
-- the confidences (`Confidence`), what the stages pass on (`Stages`), the source's client
-- (`Client`), the normalizer (`Normalizer`), the runs that are kept (`Runs`) and the pipeline (`Pipeline`).
mod Tests
mod Samples
pub mod Records
pub mod Validator
pub mod Confidence
pub mod Stages
pub mod Columns
pub mod Extraction
pub mod Client
pub mod Runs
pub mod Normalizer
pub mod Pipeline
