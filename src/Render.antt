-- ===== src/Render.antt =====
-- gate/internal/render/render.go: a commit's manifests as decoded objects.
pub mod Documents
pub mod Directories
pub mod AllRoots
pub mod Roots
