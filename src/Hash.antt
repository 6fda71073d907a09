-- ===== src/Hash.antt =====
-- sim/internal/hash/hash.go: the chained block hashes of the KV cache and of the router's prefix
-- index. SHA256 with its hex encoding and the decimal formatting of a token are other packages'
-- code: they are the fields of `Sha`.
mod Defs
pub mod Prefix
unfoldable pub use Defs.*
