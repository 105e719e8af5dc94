-- ===== src/Reassembler/Errors.antt =====
-- src/reassembler.cc: `insert` and the error flag of the output.
use cs144_2024_winter.Base.{
  ℕ, ◌≡◌, refl, ◌∙◌, Bool, List, [], ◌∷◌, Option, none, some, arith, Bytes,
}
use cs144_2024_winter.ByteStream.{close}
use cs144_2024_winter.ByteStream.Invariant.{error-push}
use cs144_2024_winter.Reassembler.{
  Reassembler, Seg, write, place, absorb, drain, finish, insert, note_last,
}

abbrev error : Reassembler → Bool
error r = r.output.error

error-write : (new : Bytes) (n : ℕ) (r : Reassembler) → error (write new n r) ≡ error r
unfolding write
error-write new n r = error-push new r.output

error-absorb : (t : Seg) (r : Reassembler) → error (absorb t r) ≡ error r
unfolding absorb
error-absorb t r = grind (arith, error-write)

error-drain : (ts : List Seg) (r : Reassembler) → error (drain ts r) ≡ error r
unfolding drain
error-drain [] r = refl
error-drain (t ∷ ts) r = ground (arith, error-drain ts (absorb t r), error-absorb t r)

error-finish : (r : Reassembler) → error (finish r) ≡ error r
unfolding finish close
error-finish r = ground arith

-- Of what `place` returns, if anything.
abbrev error_of : Reassembler → Option Reassembler → Bool
error_of r none = error r
error_of r (some p) = error p

error-place : (i : ℕ) (new : Bytes) (r : Reassembler) → error_of r (place i new r) ≡ error r
unfolding place write
error-place i new r = grind (arith, error-push)

error-note_last :
    (i : ℕ) (new : Bytes) (l : Bool) (r : Reassembler) → error (note_last i new l r) ≡ error r
unfolding note_last
error-note_last i new l r = ground arith

after_place :
    (n : Reassembler) (q : Option Reassembler)
    → error_of n q ≡ error n
    → error (elim q [ none ↦ n | some p ↦ finish (drain p.segs p) ]) ≡ error n
after_place n none h = refl
after_place n (some p) h = error-finish (drain p.segs p) ∙ error-drain p.segs p ∙ h

pub error-insert :
    (i : ℕ) (new : Bytes) (l : Bool) (r : Reassembler)
    → (insert i new l r).output.error ≡ r.output.error
unfolding insert
error-insert i new l r =
    let n = note_last i new l r in
    after_place n (place i new n) (error-place i new n) ∙ error-note_last i new l r
