-- ===== src/Kube.antt =====
-- The Kubernetes side of the program: the objects, the calls of the API server, the programs that
-- make such calls, and what it means that a program keeps a rule whatever the server answers.
pub mod Objects
pub mod Status
pub mod Api
pub mod Rules
pub mod Vendor
pub mod Facts
