-- ===== src/Reassembler.antt =====
-- src/reassembler.hh and src/reassembler.cc: substrings that come in any order, put back into one
-- byte stream.
pub mod Slice
pub mod Output
pub mod Segments
pub mod Inv
pub mod Place
pub mod Insert
pub mod Order
pub mod Open
pub mod Pending
pub mod Limits
pub mod Errors
mod Tests
use cs144_2024_winter.Base.{
  ℕ, ◌+◌, ◌-◌, Bool, true, false, ◌&&◌, List, [], ◌∷◌, Option, none, some, leb, ltb, ◌==◌,
  if◌then◌else◌, add64, sub64, Bytes, substr, length,
}
use cs144_2024_winter.ByteStream.{ByteStream, push, close, available_capacity}

-- `seg`: the stream's bytes from `begin` up to `end` are those of `bytes` from `index` on.
pub record Seg : Type 0 where
  pub begin : ℕ
  pub end : ℕ
  pub bytes : Bytes
  pub index : ℕ

-- The constructor for a whole string.
pub whole_seg : ℕ → Bytes → Seg
whole_seg begin bytes = record {
  begin = begin;
  end = add64 begin (length bytes);
  bytes = bytes;
  index = 0;
}

-- `operator<`: head first, size second.
pub less : Seg → Seg → Bool
less s t =
    if ltb s.begin t.begin then true else if ltb t.begin s.begin then false else ltb t.end s.end

-- `std::set<seg>` as the list of its elements in order. An equivalent element is kept.
pub emplace : Seg → List Seg → List Seg
unfolding less
emplace s [] = s ∷ []
emplace s (t ∷ ts) =
    let rest = emplace s ts in
    if less s t then s ∷ t ∷ ts else if less t s then t ∷ rest else t ∷ ts

pub record Reassembler : Type 0 where
  pub output : ByteStream
  pub segs : List Seg
  pub next : ℕ
  pub last : ℕ
  pub has_last : Bool

unfoldable pub reassembler : ByteStream → Reassembler
reassembler output = record { output = output; segs = []; next = 0; last = 0; has_last = false }

unfoldable pub avail_cap : Reassembler → ℕ
avail_cap r = available_capacity r.output

-- The start of `insert`.
unfoldable pub note_last : ℕ → Bytes → Bool → Reassembler → Reassembler
note_last first_index new is_last_substring r =
    if is_last_substring
    then record r { last = add64 first_index (length new); has_last = true }
    else r

-- Writes `new` to the stream and moves `next_` to `next`.
unfoldable pub write : Bytes → ℕ → Reassembler → Reassembler
write new next r = record r { output = push new r.output; next = next }

-- The branches of `insert` on where the substring lies; `none` is an early return.
unfoldable pub place : ℕ → Bytes → Reassembler → Option Reassembler
place first_index new r =
    if ltb first_index next
    then (if leb (add64 first_index size) next
        then none
        else if leb (add64 next (avail_cap r)) (add64 size first_index)
        then some
            (record (write (substr new (sub64 next first_index) (avail_cap r))
              (add64 next (avail_cap r)) r) { segs = [] })
        else some (
            write (substr new (sub64 next first_index) (sub64 size (sub64 next first_index)))
              (add64 first_index size) r))
    else if first_index == next
    then (if leb size (avail_cap r)
        then some (write new (add64 next size) r)
        else some (record (write new (add64 next (avail_cap r)) r) { segs = [] }))
    else if ltb first_index (add64 next (avail_cap r))
    then (if ltb (add64 next (avail_cap r)) (add64 first_index size)
        then some (record r { segs = emplace clipped r.segs })
        else some (record r { segs = emplace (whole_seg first_index new) r.segs }))
    else none
  where
    open r use {next}

    size : ℕ
    size = length new

    clipped : Seg
    clipped = record { begin = first_index; end = add64 next (avail_cap r); bytes = new; index = 0 }

-- What the loop of `insert` writes for a segment that reaches beyond `next_`.
unfoldable pub seg_text : ℕ → Seg → Bytes
seg_text next t =
    if (next == t.begin) && (t.index == 0)
    then t.bytes
    else substr t.bytes (add64 (sub64 next t.begin) t.index) (sub64 t.end next)

-- One round for a segment that starts at or before `next_`.
unfoldable pub absorb : Seg → Reassembler → Reassembler
absorb t r = if leb t.end r.next then r else write (seg_text r.next t) t.end r

-- The loop over the stored segments, which stops at the first gap.
unfoldable pub drain : List Seg → Reassembler → Reassembler
drain [] r = record r { segs = [] }
drain (t ∷ ts) r =
    let rest = drain ts (absorb t r) in
    if ltb r.next t.begin then record r { segs = t ∷ ts } else rest

-- The end of `insert`.
unfoldable pub finish : Reassembler → Reassembler
finish r = if r.has_last && (r.next == r.last) then record r { output = close r.output } else r

unfoldable pub insert : ℕ → Bytes → Bool → Reassembler → Reassembler
insert first_index new is_last_substring r =
    elim (place first_index new (note_last first_index new is_last_substring r)) [
      | none ↦ note_last first_index new is_last_substring r
      | some placed ↦ finish (drain placed.segs placed)
    ]

-- The loop of `bytes_pending`, with its variables `end` and `res`.
unfoldable pub pending_from : ℕ → ℕ → List Seg → ℕ
pending_from end res [] = res
pending_from end res (t ∷ ts) =
    pending_from (if leb t.end end then end else t.end)
      (if leb t.end end
        then res
        else if leb t.begin end
        then add64 res (sub64 t.end end)
        else add64 res (sub64 t.end t.begin))
      ts

unfoldable pub stored_bytes : List Seg → ℕ
unfolding pending_from
stored_bytes [] = 0
stored_bytes (t ∷ ts) = pending_from t.end (sub64 t.end t.begin) ts

unfoldable pub bytes_pending : Reassembler → ℕ
unfolding stored_bytes
bytes_pending r = stored_bytes r.segs
