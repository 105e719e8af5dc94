-- ===== src/Base/Text.antt =====
-- std::string as a list of bytes: the members that the sources use.
use Prim.Native.Nat.{ℕ, ◌+◌, ◌-◌, ◌≤◌}
use mathlib.Core.Path.{◌≡◌, ap, ◌∙◌}
use mathlib.Core.List.{List, ◌++◌}
use native.Mathlib.Omega.{arith}
use cs144_2024_winter.Base.Lists.{
  length, take, drop, length-append, length-take, length-drop, drop-append_le, take-append_ge,
  take-append_le, take_all, drop-take,
}

abbrev pub Bytes : Type 0
Bytes = List ℕ

-- `s.substr( pos, n )`, and `string( s.data() + pos, n )` where that range lies inside `s`.
abbrev pub substr : Bytes → ℕ → ℕ → Bytes
substr s pos n = take n (drop pos s)

-- `s.replace( pos, n, t )` for `pos` inside `s`.
unfoldable pub replace : Bytes → ℕ → ℕ → Bytes → Bytes
replace s pos n t = take pos s ++ (t ++ drop (pos + n) s)

pub length-replace :
    (s : Bytes) (pos n : ℕ) (t : Bytes)
    → pos + n ≤ length s
    → length t ≡ n
    → length (replace s pos n t) ≡ length s
unfolding replace
length-replace s pos n t h e = omega (
  arith,
  length-append (take pos s) (t ++ drop (pos + n) s),
  length-append t (drop (pos + n) s),
  length-take pos s,
  length-drop (pos + n) s,
)

pub length-substr : (s : Bytes) (pos n : ℕ) → pos + n ≤ length s → length (substr s pos n) ≡ n
length-substr s pos n h = omega (arith, length-take n (drop pos s), length-drop pos s)

take-append_exact : (n : ℕ) (xs ys : Bytes) → length xs ≡ n → take n (xs ++ ys) ≡ xs
take-append_exact n xs ys h = take-append_le n xs ys (omega arith) ∙ take_all n xs (omega arith)

-- A write at the end of a window extends the window.
pub substr-replace_end :
    (s : Bytes) (b e n m : ℕ) (t : Bytes)
    → b ≤ e
    → e ≤ length s
    → length t ≡ n
    → m ≡ e - b + n
    → substr (replace s e n t) b m ≡ substr s b (e - b) ++ t
unfolding replace
substr-replace_end s b e n m t hb he ht hm =
    rw
      (
        drop-append_le b (take e s) rest (omega (arith, length-take e s)),
        drop-take b e s,
        take-append_ge m window rest (omega (arith, width)),
      )
      (ap (λ r. window ++ r)
        (take-append_exact (m - length window) t (drop (e + n) s) (omega (arith, width))))
  where
    rest : Bytes
    rest = t ++ drop (e + n) s

    window : Bytes
    window = substr s b (e - b)

    width : length window ≡ e - b
    width = length-substr s b (e - b) (omega arith)

-- A write at the front is what the front then holds.
pub substr-replace_front :
    (s : Bytes) (n : ℕ) (t : Bytes) → length t ≡ n → substr (replace s 0 n t) 0 n ≡ t
unfolding replace
substr-replace_front s n t h = take-append_exact n t (drop (0 + n) s) h
