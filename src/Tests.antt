-- ===== src/Tests.antt =====
-- Small inputs, and the theorems of the library at them.
mod Samples
mod FindingsTests
mod SelectionTests
mod FileTests
mod StoreTests
mod AuditTests
mod RegistryTests
mod ReportTests
mod PersistTests
mod CalibrationTests
mod PipelineSamples
mod LifecycleTests
mod PipelineTests
mod ChangedTests
