-- ===== src/Prelude.antt =====
-- The names that the modules of the development share: the libraries', passed on, and those of
-- the modules below this one.
mod Tests
mod Lists
mod Bytes
mod Split
mod Maps
mod Int64
mod Paths
mod Outcome
pub use Tests.*
pub use Lists.*
pub use Bytes.*
pub use Split.*
pub use Maps.*
pub use Int64.*
pub use Paths.*
pub use Outcome.*
unfoldable pub use Bytes.{to_lower, trim_space, append_if}
unfoldable pub use Split.{split, join}
unfoldable pub use Int64.{parse_int64, parse_bool, add_int64, sub_int64}
unfoldable pub use Paths.{clean, join_path}
pub use Prim.Native.Nat.{ℕ, zero, suc, ◌+◌, ◌-◌, ◌*◌, ◌/◌, ◌%◌, ◌^◌, ◌≤◌, ◌<◌}
pub use mathlib.Core.Path.{◌≡◌, refl, sym, ap, ◌∙◌, subst}
pub use mathlib.Core.Logic.{◌≢◌, ◌↔◌, ◌⊎◌, inl, inr}
pub use mathlib.Core.Bool.{Bool, true, false, not, ◌&&◌, ◌||◌}
pub use mathlib.Core.Option.{Option, none, some}
pub use mathlib.Core.List.{List, [], ◌∷◌, ◌++◌, append_assoc, append-nil}
pub use native.Mathlib.Omega.{arith}
