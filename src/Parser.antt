-- ===== src/Parser.antt =====
-- The Parser of util/parser.hh: big-endian integers read from a list of strings.
pub mod Buffer
pub mod Integer
pub mod Strings
use cs144_2024_winter.Base.{
  ℕ, zero, suc, ◌+◌, ◌-◌, ◌*◌, ◌%◌, ◌^◌, min, Bool, true, false, ◌||◌, List, [], ◌∷◌, Option, none,
  some, ◌++◌, ltb, ◌==◌, if◌then◌else◌, sub64, add64, Bytes, length, drop,
}

-- The strings, with how much of the first was read and how much is left in all.
pub record BufferList : Type 0 where
  pub size : ℕ
  pub buffer : List Bytes
  pub skip : ℕ

pub append : Bytes → BufferList → BufferList
append str b = record b { size = add64 b.size (length str); buffer = b.buffer ++ str ∷ [] }

pub append_all : List Bytes → BufferList → BufferList
append_all [] b = b
append_all (x ∷ xs) b = append_all xs (append x b)

-- The constructor.
pub buffer_list : List Bytes → BufferList
buffer_list buffers = append_all buffers (record { size = 0; buffer = []; skip = 0 })

-- `peek`; `none` is its exception.
pub peek : BufferList → Option Bytes
peek b = elim b.buffer [ [] ↦ none | s ∷ rest ↦ some (drop b.skip s) ]

-- `peek().front()`; `none` also where the view is empty, on which `front` is undefined.
pub front : BufferList → Option ℕ
unfolding peek
front b = elim (peek b) [ none ↦ none | some view ↦ elim view [ [] ↦ none | x ∷ _ ↦ some x ] ]

-- The loop of `remove_prefix`. It leaves the first string only when `len` is used up.
pub remove_from : ℕ → List Bytes → BufferList → BufferList
remove_from len [] b = record b { buffer = [] }
remove_from len (s ∷ rest) b =
    let now = min len (length s - b.skip) in
    let moved = record b { skip = b.skip + now; size = sub64 b.size now } in
    let later = remove_from (len - now) rest (record moved { skip = 0 }) in
    if len == 0
    then record b { buffer = s ∷ rest }
    else if b.skip + now == length s
    then later
    else record moved { buffer = s ∷ rest }

pub remove_prefix : ℕ → BufferList → BufferList
remove_prefix len b = remove_from len b.buffer b

-- `dump_all`: what is left, string by string.
pub dump_all : BufferList → List Bytes
dump_all b = if b.size == 0 then [] else elim b.buffer [ [] ↦ [] | s ∷ rest ↦ drop b.skip s ∷ rest ]

pub record Parser : Type 0 where
  pub input : BufferList
  pub error : Bool

pub parser : List Bytes → Parser
parser input = record { input = buffer_list input; error = false }

pub check_size : ℕ → Parser → Parser
check_size size p = record p { error = p.error || ltb p.input.size size }

pub set_error : Parser → Parser
set_error p = record p { error = true }

-- A method that reads; `none` is an exception.
abbrev pub Reads : Type 0 → Type 0
Reads A = Parser → Option (A × Parser)

infixl 5 ◌>>=◌
abbrev pub ◌>>=◌ : {A B : Type 0} → Reads A → (A → Reads B) → Reads B
(m >>= f) p = elim (m p) [ none ↦ none | some (a, q) ↦ f a q ]

abbrev pub returns : {A : Type 0} → A → Reads A
returns a p = some (a, p)

-- One byte.
pub next_byte : Reads ℕ
next_byte p = elim (front p.input) [
  | none ↦ none
  | some x ↦ some (x, record p { input = remove_prefix 1 p.input })
]

-- The loop of `integer` for a type of `width` bytes. The lowest eight bits of the shifted number are
-- free, so `|` is a sum.
pub shift_in : ℕ → ℕ → ℕ → Reads ℕ
shift_in zero width out = returns out
shift_in (suc n) width out = next_byte >>= (λ x. shift_in n width (out * 256 % 2 ^ (8 * width) + x))

-- `integer( out )` for a type of `width` bytes. On an error `out` is left as it is.
pub integer : ℕ → ℕ → Reads ℕ
unfolding check_size
integer width out p =
    let q = check_size width p in
    if q.error then some (out, q) else if width == 1 then next_byte q else shift_in width width 0 q

-- `integer` on each byte of an array.
pub bytes : Bytes → Reads Bytes
bytes [] = returns []
bytes (b ∷ bs) = integer 1 b >>= (λ c. bytes bs >>= (λ cs. returns (c ∷ cs)))

pub all_remaining : Parser → List Bytes
all_remaining p = dump_all p.input
