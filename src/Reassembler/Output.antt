-- ===== src/Reassembler/Output.antt =====
-- The output stream of a reassembler: it holds the piece of the sender's stream between the bytes
-- that were popped and `next_`.
use cs144_2024_winter.Base.{
  ℕ, ◌+◌, ◌-◌, ◌≤◌, ◌<◌, ◌≡◌, subst, false, arith, Bytes, length, take, add64_small,
}
use cs144_2024_winter.ByteStream.{ByteStream, push, pop, close}
use cs144_2024_winter.ByteStream.Invariant.{
  IsValid, contents, max_size, room, push-Pushed_open, Pushed,
}
use cs144_2024_winter.ByteStream.Refine.{pop_lem, pop-IsValid, contents_after}
use cs144_2024_winter.Reassembler.Slice.{slice, slice_join, length-slice, drop-slice}

module _ (stream : ℕ → ℕ) where
  pub record Delivers (o : ByteStream) (next : ℕ) : Type 0 where
    pub valid : IsValid o
    pub behind : o.popped_cnt ≤ next
    pub held : o.end - o.begin ≡ next - o.popped_cnt
    pub counted : o.pushed_cnt ≡ next
    pub bytes : contents o ≡ slice stream o.popped_cnt (next - o.popped_cnt)
    pub bounded : next < max_size

  -- A write of the next `n` bytes, of which all fit, delivers them. What does not fit is cut.
  pub push-Delivers :
      (new : Bytes) (n : ℕ) {o : ByteStream} {next : ℕ}
      → Delivers o next
      → o.is_closed ≡ false
      → length new < max_size
      → take (room o) new ≡ slice stream next n
      → next + n < max_size
      → Delivers (push new o) (next + n)
  push-Delivers new n {o} {next} d open_ h e small =
      let p = subst (λ b. Pushed b o (push new o)) e (push-Pushed_open new d.valid h open_) in
      ground (
        arith,
        p,
        slice_join stream o.popped_cnt next n d.behind,
        length-slice stream next n,
        add64_small o.pushed_cnt n,
      )

  pub pop-Delivers :
      (n : ℕ) {o : ByteStream} {next : ℕ}
      → Delivers o next
      → n ≤ o.end - o.begin
      → Delivers (pop n o) next
  pop-Delivers n {o} {next} d h = rw (pop_lem n d.valid (omega arith)) (
      ground (
        arith,
        rw (pop_lem n d.valid (omega arith)) at (pop-IsValid n d.valid (omega arith)),
        add64_small o.popped_cnt n,
        contents_after n d.valid h,
        drop-slice stream n o.popped_cnt (next - o.popped_cnt),
      ))

  pub close-Delivers : {o : ByteStream} {next : ℕ} → Delivers o next → Delivers (close o) next
  unfolding close contents
  close-Delivers d = ground (arith, d)
