-- ===== src/Examples.antt =====
-- Concrete worlds, buckets and readers at which the theorems are applied.
mod FilesystemCases
mod BosCases
mod FactoryCases
mod ObsCases
mod OssCases
mod CosCases
mod DirectoryCases
mod World
mod InmemCases
mod PrefixedCases
mod MetricsCases
mod TracingCases
mod HelperCases
mod S3Cases
mod TlsCases
