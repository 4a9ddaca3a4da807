-- ===== src/Commit/Merger.antt =====
-- The merge of two versions of a page: app/ai/mrp/merger.py. The language model is a function that
-- gives no answer where the call fails or times out.
use Prim.Native.Nat.{◌^◌}
use Prim.Native.String.{count}
use arkon.Base.{
  ℕ, zero, suc, ◌+◌, ◌-◌, ◌*◌, ◌/◌, ◌%◌, String, true, false, ◌||◌, ◌&&◌, Option, none, some,
  if◌then◌else◌, ltb, ◌==◌, str_eq, strip, max,
}

-- the binary digits of a number, with fuel for them
unfoldable pub bit_length : ℕ → ℕ → ℕ
bit_length zero n = 0
bit_length (suc fuel) n = elim (n == 0) [ true ↦ 0 | false ↦ suc (bit_length fuel (n / 2)) ]

-- the quotient, rounded to the nearest and a half to the even one
unfoldable pub rounded : ℕ → ℕ → ℕ
rounded n d =
    let q = n / d in
    let twice = 2 * (n % d) in if ltb d twice || (twice == d && q % 2 == 1) then q + 1 else q

-- `int(n * 0.7)` on doubles: 0.7 is 6305039478318694 / 2 ^ 53, and the product keeps 53 digits.
unfoldable pub min_acceptable : ℕ → ℕ
min_acceptable n =
    let product = n * 6305039478318694 in
    let unit = 2 ^ (bit_length (n + 53) product - 53) in (rounded product unit * unit) / 2 ^ 53

unfoldable pub merge_page_content : (String → String → Option String) → String → String → String
merge_page_content generate existing_content new_content =
    if ltb (count (strip existing_content)) 50
    then new_content
    else if str_eq (strip existing_content) (strip new_content)
    then new_content
    else elim (generate existing_content new_content) [
      | none ↦ new_content
      | some raw ↦
          if ltb (count (strip raw))
            (min_acceptable (max (count existing_content) (count new_content)))
          then new_content
          else strip raw
    ]
