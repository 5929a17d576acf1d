-- ===== src/Prelude/Split.antt =====
-- `strings.Split` and `strings.Join`.
use Prim.Native.Nat.{ℕ, zero, suc}
use mathlib.Core.Path.{◌≡◌, refl, sym}
use mathlib.Core.Logic.{◌≢◌}
use mathlib.Core.Bool.{true, false}
use mathlib.Core.List.{List, [], ◌∷◌, ◌++◌, append_assoc, append-nil}
use native.Mathlib.Omega.{arith}
use aws_efs_csi_driver.Prelude.Lists.{length, drop}
use aws_efs_csi_driver.Prelude.Bytes.{
  GoString, has_prefix, has_prefix-drop, has_prefix-append, contains_str, Lacks,
}

-- One pass over the text: `skip` bytes of a separator are still to pass, `cur` is the current part.
split_loop : GoString → ℕ → GoString → GoString → List GoString
split_loop sep skip [] cur = cur ∷ []
split_loop sep (suc k) (c ∷ s) cur = split_loop sep k s cur
split_loop sep zero (c ∷ s) cur = elim (has_prefix (c ∷ s) sep) [
  | true ↦ cur ∷ split_loop sep (length (drop 1 sep)) s []
  | false ↦ split_loop sep zero s (cur ++ c ∷ [])
]

-- `strings.Split(s, sep)`, for a separator that is not empty
unfoldable pub split : GoString → GoString → List GoString
unfolding split_loop
split s sep = split_loop sep 0 s []

-- `strings.Join(parts, sep)`
unfoldable pub join : List GoString → GoString → GoString
join [] sep = []
join (p ∷ []) sep = p
join (p ∷ q ∷ ps) sep = p ++ (sep ++ join (q ∷ ps) sep)

split_loop-ne-nil : (sep : GoString) (k : ℕ) (s cur : GoString) → split_loop sep k s cur ≢ []
unfolding split_loop
split_loop-ne-nil sep k [] cur e = cc
split_loop-ne-nil sep (suc k) (c ∷ s) cur e = split_loop-ne-nil sep k s cur e
split_loop-ne-nil sep zero (c ∷ s) cur e =
    ground (arith, split_loop-ne-nil sep zero s (cur ++ c ∷ []))

join_cons :
    (p : GoString) (ps : List GoString) (sep : GoString)
    → ps ≢ []
    → join (p ∷ ps) sep ≡ p ++ (sep ++ join ps sep)
unfolding join
join_cons p [] sep h = absurd (h refl)
join_cons p (q ∷ ps) sep h = refl

-- What a cut at the head of a text passes over.
cut_head :
    (c d : ℕ) (s sep : GoString)
    → has_prefix (c ∷ s) (d ∷ sep) ≡ true
    → c ∷ s ≡ (d ∷ sep) ++ drop (length sep) s
cut_head c d s sep h = has_prefix-drop (c ∷ s) (d ∷ sep) h

join-split_loop :
    (d : ℕ) (sep : GoString) (k : ℕ) (s cur : GoString)
    → join (split_loop (d ∷ sep) k s cur) (d ∷ sep) ≡ cur ++ drop k s
unfolding split_loop join
join-split_loop d sep zero [] cur = sym (append-nil cur)
join-split_loop d sep (suc k) [] cur = sym (append-nil cur)
join-split_loop d sep (suc k) (c ∷ s) cur = join-split_loop d sep k s cur
join-split_loop d sep zero (c ∷ s) cur = ground (
  arith,
  cut_head c d s sep,
  join_cons cur (split_loop (d ∷ sep) (length sep) s []) (d ∷ sep)
      (split_loop-ne-nil (d ∷ sep) (length sep) s []),
  join-split_loop d sep (length sep) s [],
  join-split_loop d sep zero s (cur ++ c ∷ []),
  append_assoc cur (c ∷ []) s,
  append_assoc cur (d ∷ sep) (drop (length sep) s),
)

-- Joining the parts of a split gives the text back.
pub join-split : (d : ℕ) (s sep : GoString) → join (split s (d ∷ sep)) (d ∷ sep) ≡ s
unfolding split
join-split d s sep = join-split_loop d sep zero s []

split_loop_skip :
    (sep p rest cur : GoString)
    → split_loop sep (length p) (p ++ rest) cur ≡ split_loop sep zero rest cur
unfolding split_loop
split_loop_skip sep [] rest cur = refl
split_loop_skip sep (c ∷ p) rest cur = split_loop_skip sep p rest cur

-- A part that lacks the first byte of the separator ends at the separator.
split_loop_part :
    (d : ℕ) (sep a rest cur : GoString)
    → Lacks d a
    → split_loop (d ∷ sep) zero (a ++ ((d ∷ sep) ++ rest)) cur
      ≡ (cur ++ a) ∷ split_loop (d ∷ sep) zero rest []
unfolding split_loop
split_loop_part d sep [] rest cur h =
    ground
      (arith, has_prefix-append sep rest, split_loop_skip (d ∷ sep) sep rest [], append-nil cur)
split_loop_part d sep (c ∷ a) rest cur h =
    ground (arith, split_loop_part d sep a rest (cur ++ c ∷ []) h.1, append_assoc cur (c ∷ []) a)

-- A text without the separator is its only part.
split_loop_whole :
    (d : ℕ) (sep s cur : GoString)
    → contains_str s (d ∷ sep) ≡ false
    → split_loop (d ∷ sep) zero s cur ≡ (cur ++ s) ∷ []
unfolding split_loop
split_loop_whole d sep [] cur h = rw append-nil
split_loop_whole d sep (c ∷ s) cur h =
    ground (arith, split_loop_whole d sep s (cur ++ c ∷ []), append_assoc cur (c ∷ []) s)

pub split_part :
    (d : ℕ) (sep a rest : GoString)
    → Lacks d a
    → split (a ++ ((d ∷ sep) ++ rest)) (d ∷ sep) ≡ a ∷ split rest (d ∷ sep)
unfolding split
split_part d sep a rest h = split_loop_part d sep a rest [] h

pub split_whole :
    (d : ℕ) (sep s : GoString) → contains_str s (d ∷ sep) ≡ false → split s (d ∷ sep) ≡ s ∷ []
unfolding split
split_whole d sep s h = split_loop_whole d sep s [] h

pub Lacks-contains_str : (d : ℕ) (sep s : GoString) → Lacks d s → contains_str s (d ∷ sep) ≡ false
Lacks-contains_str d sep [] h = refl
Lacks-contains_str d sep (c ∷ s) h = ground (arith, Lacks-contains_str d sep s h.1)
