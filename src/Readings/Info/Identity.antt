-- ===== src/Readings/Info/Identity.antt =====
-- The machine's id, which getMachineInfo prints from the four words of the control's id, and which
-- keys all its messages: the words can be read back from it.
use fanuc_driver.CString.{Bytes, codes}
use fanuc_driver.CString.Hex.{hex_digit, hex8, hex8-IsText}
use fanuc_driver.Prelude.{
  ℕ, ◌+◌, ◌-◌, ◌*◌, ◌<◌, ◌≡◌, [], ◌∷◌, arith, ltb, if◌then◌else◌, ◌%◌, refl, ◌++◌, length, take,
  drop,
}
use fanuc_driver.CString.Laws.{IsText, append-IsText}
use fanuc_driver.Readings.Info.{machine_id}

-- The value of a hexadecimal digit, and of a number that is printed in them, behind the digits of `n`.
unfoldable pub digit_value : ℕ → ℕ
digit_value c = if ltb c 58 then c - 48 else c - 87

unfoldable pub hex_value : ℕ → Bytes → ℕ
unfolding digit_value
hex_value n [] = n
hex_value n (c ∷ s) = hex_value (16 * n + digit_value c) s

digit_value-hex_digit : (d : ℕ) → d < 16 → digit_value (hex_digit d) ≡ d
unfolding digit_value hex_digit
digit_value-hex_digit d h = ground arith

digit_of_rest : (m : ℕ) → digit_value (hex_digit (m % 16)) ≡ m % 16
digit_of_rest m = digit_value-hex_digit (m % 16) (omega arith)

-- Eight digits hold a word of 32 bits.
hex_value-hex8 : (n : ℕ) → n < 4294967296 → hex_value 0 (hex8 n) ≡ n
unfolding hex_value hex8
hex_value-hex8 n h = simp digit_of_rest (omega arith)

-- The eight characters of the id from the `i`th on.
abbrev pub word_at : ℕ → Bytes → ℕ
word_at i id = hex_value 0 (take 8 (drop i id))

-- A word, a dash and the rest of the id.
dashed-IsText : (n : ℕ) (t : Bytes) → IsText t → IsText (hex8 n ++ (codes "-" ++ t))
dashed-IsText n t h = append-IsText (hex8 n) _ (hex8-IsText n) (ground arith)

pub machine_id-IsText : (a b c d : ℕ) → IsText (machine_id a b c d)
unfolding machine_id
machine_id-IsText a b c d =
    let cd = hex8 c ++ (codes "-" ++ hex8 d) in
    let bcd = hex8 b ++ (codes "-" ++ cd) in
    dashed-IsText a bcd (dashed-IsText b cd (dashed-IsText c (hex8 d) (hex8-IsText d)))

pub length-machine_id : (a b c d : ℕ) → length (machine_id a b c d) ≡ 35
unfolding machine_id
length-machine_id a b c d = refl

-- The id that is printed for four words of 32 bits has 35 characters, none of them NUL, and the
-- words can be read back from it: two controls with different ids have different keys.
pub machine_id_roundtrip :
    (a b c d : ℕ)
    → a < 4294967296
    → b < 4294967296
    → c < 4294967296
    → d < 4294967296
    → let id = machine_id a b c d in
      (length id ≡ 35)
      × IsText id
      × (word_at 0 id ≡ a)
      × (word_at 9 id ≡ b)
      × (word_at 18 id ≡ c)
      × (word_at 27 id ≡ d)
unfolding machine_id
machine_id_roundtrip a b c d ha hb hc hd = (
  length-machine_id a b c d,
  machine_id-IsText a b c d,
  hex_value-hex8 a ha,
  hex_value-hex8 b hb,
  hex_value-hex8 c hc,
  hex_value-hex8 d hd,
)
