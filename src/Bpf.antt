-- ===== src/Bpf.antt =====
-- pkg/bpf/loader.go: its types, the loading, configuring and attaching of a program, and their laws.
pub mod Types
pub mod Program
