-- ===== src/Tests.antt =====
-- The crates and the generic functions by small concrete ones, the proof that these keep the
-- assumptions of `Laws`, and the theorems applied to them.
mod Instants
mod Local
mod Instances
mod Coder
mod Wire
mod Handlers
mod Lawful
mod States
mod Runs
mod Creation
mod Chains
mod CodecExamples
mod CallExamples
mod ChainExamples
mod LinkExamples
mod OrderExamples
mod RefusedExamples
mod RegistryExamples
mod Workshop
mod GeneratorExamples
mod SyncExamples
mod UnitExamples
mod Texts
mod MemStore
mod MockExamples
