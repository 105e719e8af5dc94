-- ===== src/FileDescriptor/Buffers.antt =====
-- util/file_descriptor.cc: what `read( vector )` leaves in its buffers.
use cs144_2024_winter.Base.{
  ℕ, zero, suc, ◌-◌, ◌≤◌, ◌≡◌, refl, sym, ap, ◌∙◌, arith, List, [], ◌∷◌, ◌++◌, leb, if◌then◌else◌,
  leb_cases, inl, inr, Bytes, length, take, take-append_le, take-append_ge, append-nil, le→ltb,
  lt→leb, ◌<◌, ◌||◌, ◌==◌,
}
use cs144_2024_winter.Parser.Buffer.{joined, joined_one}
use cs144_2024_winter.FileDescriptor.{
  FdWrapper, SysAnswer, Attempt, cut_buffers, read_buffers, register_read, register_write, write,
  read,
}

joined-cut_none : (bufs : List Bytes) → joined (cut_buffers 0 bufs) ≡ []
unfolding cut_buffers joined
joined-cut_none [] = refl
joined-cut_none ([] ∷ bufs) = joined-cut_none bufs
joined-cut_none ((x ∷ buf) ∷ bufs) =
    rw (lt→leb (suc (length buf)) 0 (omega arith)) (joined-cut_none bufs)

-- However many bytes were read, the buffers hold those and no others afterwards.
pub joined-cut_buffers :
    (n : ℕ) (bufs : List Bytes) → joined (cut_buffers n bufs) ≡ take n (joined bufs)
unfolding cut_buffers joined
joined-cut_buffers zero [] = refl
joined-cut_buffers (suc n) [] = refl
joined-cut_buffers n (buf ∷ bufs) = elim (leb_cases (length buf) n) [
  | inl (whole, e) ↦ rw e (
      ap (λ t. buf ++ t) (joined-cut_buffers (n - length buf) bufs)
      ∙ sym (take-append_ge n buf (joined bufs) whole))
  | inr (part, e) ↦ rw e (
      ap (λ t. take n buf ++ t) (joined-cut_none bufs)
      ∙ append-nil (take n buf)
      ∙ sym (take-append_le n buf (joined bufs) (omega arith)))
]

length-cut_buffers : (n : ℕ) (bufs : List Bytes) → length (cut_buffers n bufs) ≡ length bufs
unfolding cut_buffers
length-cut_buffers n [] = refl
length-cut_buffers n (buf ∷ bufs) =
    ap suc (length-cut_buffers (if leb (length buf) n then n - length buf else 0) bufs)

-- What the system call put at the front of the buffers is what they hold afterwards.
pub read_buffers_lem :
    (buf : Bytes) (bufs : List Bytes) (text : Bytes) (w : FdWrapper)
    → length text ≤ length (joined (buf ∷ bufs))
    → take (length text) (joined (buf ∷ bufs)) ≡ text
    → (got : List Bytes) × (read_buffers (SysAnswer.returned (length text)) (buf ∷ bufs) w
        ≡ Attempt.ok got (register_read w))
      × (joined got ≡ text)
      × (length got ≡ suc (length bufs))
unfolding read_buffers
read_buffers_lem buf bufs text w h e = (
  cut_buffers (length text) (buf ∷ bufs),
  rw (le→ltb (length (joined (buf ∷ bufs))) (length text) h) refl,
  joined-cut_buffers (length text) (buf ∷ bufs) ∙ e,
  length-cut_buffers (length text) (buf ∷ bufs),
)

-- A call of `::writev` that took something of one buffer, and no more than there is.
pub write_one :
    (buffer : Bytes) (n : ℕ) (w : FdWrapper)
    → 0 < n
    → n ≤ length buffer
    → write (buffer ∷ []) (SysAnswer.returned n) w ≡ Attempt.ok n (register_write w)
unfolding write
write_one buffer n w more fits =
    rw (joined_one buffer, le→ltb (length buffer) n fits) (ground (arith, more))

-- A call of `::read` that left `n` bytes in a buffer that holds them.
pub read_one :
    (buffer : Bytes) (n : ℕ) (w : FdWrapper)
    → n ≤ length buffer
    → read (SysAnswer.returned n) buffer w
      ≡ Attempt.ok (take n buffer) (record (register_read w) { eof = w.eof || (n == 0) })
unfolding read
read_one buffer n w fits = rw (le→ltb (length buffer) n fits) refl
