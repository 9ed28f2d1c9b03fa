-- ===== src/Cipher/Tables.antt =====
-- hw1/src/const.c: the alphabets, the Morse code, and the variables that the program shares. A `char` is
-- its byte. It is negative as a number from 128 on, which tests of order take into account.
use system_fundamentals_c_pr.Base.{ℕ, List, [], ◌∷◌, codes, replicate}

abbrev pub polybius_alphabet : List ℕ
polybius_alphabet =
    codes
      "!\"#$%&'()*+,-./0123456789:;<=>?@ABCDEFGHIJKLMNOPQRSTUVWXYZ[\\]^_`abcdefghijklmnopqrstuvwxyz{|}~"

abbrev pub fm_alphabet : List ℕ
fm_alphabet = codes "ABCDEFGHIJKLMNOPQRSTUVWXYZ"

-- The code of '!' first; the letters in lower case have none.
abbrev pub morse_table : List (List ℕ)
morse_table =
    codes "-.-.--"
    ∷ codes ".-..-."
    ∷ []
    ∷ []
    ∷ []
    ∷ []
    ∷ codes ".----."
    ∷ codes "-.--."
    ∷ codes "-.--.-"
    ∷ []
    ∷ []
    ∷ codes "--..--"
    ∷ codes "-....-"
    ∷ codes ".-.-.-"
    ∷ []
    ∷ codes "-----"
    ∷ codes ".----"
    ∷ codes "..---"
    ∷ codes "...--"
    ∷ codes "....-"
    ∷ codes "....."
    ∷ codes "-...."
    ∷ codes "--..."
    ∷ codes "---.."
    ∷ codes "----."
    ∷ codes "---..."
    ∷ codes "-.-.-."
    ∷ []
    ∷ codes "-...-"
    ∷ []
    ∷ codes "..--.."
    ∷ codes ".--.-."
    ∷ codes ".-"
    ∷ codes "-..."
    ∷ codes "-.-."
    ∷ codes "-.."
    ∷ codes "."
    ∷ codes "..-."
    ∷ codes "--."
    ∷ codes "...."
    ∷ codes ".."
    ∷ codes ".---"
    ∷ codes "-.-"
    ∷ codes ".-.."
    ∷ codes "--"
    ∷ codes "-."
    ∷ codes "---"
    ∷ codes ".--."
    ∷ codes "--.-"
    ∷ codes ".-."
    ∷ codes "..."
    ∷ codes "-"
    ∷ codes "..-"
    ∷ codes "...-"
    ∷ codes ".--"
    ∷ codes "-..-"
    ∷ codes "-.--"
    ∷ codes "--.."
    ∷ replicate 31 []

abbrev pub fractionated_table : List (List ℕ)
fractionated_table =
    codes "..."
    ∷ codes "..-"
    ∷ codes "..x"
    ∷ codes ".-."
    ∷ codes ".--"
    ∷ codes ".-x"
    ∷ codes ".x."
    ∷ codes ".x-"
    ∷ codes ".xx"
    ∷ codes "-.."
    ∷ codes "-.-"
    ∷ codes "-.x"
    ∷ codes "--."
    ∷ codes "---"
    ∷ codes "--x"
    ∷ codes "-x."
    ∷ codes "-x-"
    ∷ codes "-xx"
    ∷ codes "x.."
    ∷ codes "x.-"
    ∷ codes "x.x"
    ∷ codes "x-."
    ∷ codes "x--"
    ∷ codes "x-x"
    ∷ codes "xx."
    ∷ codes "xx-"
    ∷ []

-- The variables `key`, `polybius_table` and `fm_key`; the two arrays have 257 and 27 bytes.
pub record Globals : Type 0 where
  pub key : List ℕ
  pub polybius_table : List ℕ
  pub fm_key : List ℕ

abbrev pub globals : Globals
globals = record { key = []; polybius_table = replicate 257 0; fm_key = replicate 27 0 }
