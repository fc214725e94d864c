-- ===== src/Numbers/Format.antt =====
-- src/kernel/vsprintf.c: what `vsprintf` makes of a format without widths.
use mathlib.Core.Option
use aneasyos.Base.{
  ℕ, zero, suc, ◌+◌, ◌-◌, ◌%◌, ◌<◌, ◌≡◌, ◌≢◌, refl, ◌∙◌, Option, none, some, List, [], ◌∷◌, ◌++◌,
  false, arith, ltb, ◌==◌, if◌then◌else◌,
}
use aneasyos.Base.Lists.{All, length, length-append}
use aneasyos.Base.Options.{◌>>=◌}
use aneasyos.Base.Word.{word, half_word}
use aneasyos.Numbers.Decimal.{IsDecimal, print_int-IsDecimal}
use aneasyos.Numbers.Hex.{read_hex, digits_of, hex-reads}
use aneasyos.Numbers.{
  in_inner_buf, u2a, print_int, until_nul, convert, repeat, padded, plain, vsprintf,
}

-- A part of a format with its argument: a character, "%%", "%d", "%x", "%s" and "%c".
pub data Piece : Type 0 where
  char : ℕ → Piece
  percent_sign : Piece
  number : ℕ → Piece
  hex : ℕ → Piece
  string : ℕ → Piece
  character : ℕ → Piece

abbrev pub spell : List Piece → List ℕ
spell [] = []
spell (char c ∷ ps) = c ∷ spell ps
spell (percent_sign ∷ ps) = b'%' ∷ (b'%' ∷ spell ps)
spell (number m ∷ ps) = b'%' ∷ (b'd' ∷ spell ps)
spell (hex m ∷ ps) = b'%' ∷ (b'x' ∷ spell ps)
spell (string p ∷ ps) = b'%' ∷ (b's' ∷ spell ps)
spell (character m ∷ ps) = b'%' ∷ (b'c' ∷ spell ps)

abbrev pub arguments : List Piece → List ℕ
arguments [] = []
arguments (char c ∷ ps) = arguments ps
arguments (percent_sign ∷ ps) = arguments ps
arguments (number m ∷ ps) = m ∷ arguments ps
arguments (hex m ∷ ps) = m ∷ arguments ps
arguments (string p ∷ ps) = p ∷ arguments ps
arguments (character m ∷ ps) = m ∷ arguments ps

module _ (str : ℕ → List ℕ) where
  -- A plain character is no per cent sign, the ints are below 2 ^ 32, `%d` has no -2^31, and a string
  -- fits into the buffer.
  abbrev pub IsPiece : Piece → Type 0
  IsPiece (char c) = c ≢ b'%'
  IsPiece percent_sign = Unit
  IsPiece (number m) = (m < word) × (m ≢ half_word)
  IsPiece (hex m) = m < word
  IsPiece (string p) = length (str p) < 1024
  IsPiece (character m) = Unit

  -- What a text has to be for its piece.
  abbrev pub Matches : Piece → List ℕ → Type 0
  Matches (char c) s = s ≡ c ∷ []
  Matches percent_sign s = s ≡ b'%' ∷ []
  Matches (number m) s = IsDecimal m s
  Matches (hex m) s =
      (s ≡ b'0' ∷ (b'x' ∷ digits_of s)) × (length (digits_of s) ≡ 8) × (read_hex s ≡ m)
  Matches (string p) s = s ≡ str p
  Matches (character m) s = s ≡ (if m % 0x100 == 0 then [] else (m % 0x100) ∷ [])

  abbrev pub AllMatch : List Piece → List (List ℕ) → Type 0
  AllMatch [] [] = Unit
  AllMatch [] (t ∷ ts) = ⊥
  AllMatch (p ∷ ps) [] = ⊥
  AllMatch (p ∷ ps) (t ∷ ts) = Matches p t × AllMatch ps ts

-- Texts one after the other.
abbrev pub join : List (List ℕ) → List ℕ
join [] = []
join (t ∷ ts) = t ++ join ts

module _ (str : ℕ → List ℕ) where
  abbrev text_of : Piece → Option (List ℕ)
  text_of (char c) = some (c ∷ [])
  text_of percent_sign = some (b'%' ∷ [])
  text_of (number m) = print_int m
  text_of (hex m) = some (u2a m)
  text_of (string p) = in_inner_buf (str p)
  text_of (character m) = some (until_nul (m % 0x100))

  -- The texts of the pieces, one after the other.
  abbrev texts : List Piece → Option (List ℕ)
  texts [] = some []
  texts (p ∷ ps) = do s ← text_of p; t ← texts ps; some (s ++ t)

no_padding : (inner : List ℕ) → padded b' ' 0 inner ≡ inner
unfolding padded
no_padding inner = ground arith

length-repeat : (n c : ℕ) → length (repeat n c) ≡ n
length-repeat zero c = refl
length-repeat (suc n) c = omega (arith, length-repeat n c)

-- A width pads to one column less: the text with the padding has the width less one, or its own
-- length if that is more.
pub length-padded :
    (cs align_nr : ℕ) (inner : List ℕ)
    → length (padded cs align_nr inner)
      ≡ (if ltb (length inner) (align_nr - 1) then align_nr - 1 else length inner)
unfolding padded
length-padded cs align_nr inner = ground (
  arith,
  length-append (repeat (align_nr - (length inner + 1)) cs) inner,
  length-repeat (align_nr - (length inner + 1)) cs,
)

map_bind :
    (s : List ℕ) (o : Option (List ℕ)) → Option.map (λ t. s ++ t) o ≡ (o >>= (λ t. some (s ++ t)))
map_bind s none = refl
map_bind s (some t) = refl

with_rest :
    (o : Option (List ℕ)) (rest : List ℕ) (k : List ℕ × List ℕ → Option (List ℕ))
    → ((do s ← o; some (s, rest)) >>= k) ≡ (o >>= (λ s. k (s, rest)))
with_rest none rest k = refl
with_rest (some s) rest k = refl

module _ (str : ℕ → List ℕ) where
  -- After a conversion comes the rest of the format.
  converted :
      (c m : ℕ) (fmt inner rest : List ℕ) (text later : Option (List ℕ))
      → vsprintf str plain (b'%' ∷ (c ∷ fmt)) inner (m ∷ rest)
        ≡ (do s ← text; t ← vsprintf str plain fmt s rest; some (padded b' ' 0 s ++ t))
      → ((s : List ℕ) → vsprintf str plain fmt s rest ≡ later)
      → vsprintf str plain (b'%' ∷ (c ∷ fmt)) inner (m ∷ rest)
        ≡ (do s ← text; t ← later; some (s ++ t))
  converted c m fmt inner rest none later step ih = step
  converted c m fmt inner rest (some s) later step ih = step ∙ rw (ih s, no_padding s) refl

  vsprintf-pieces :
      (ps : List Piece) (inner : List ℕ)
      → All (IsPiece str) ps
      → vsprintf str plain (spell ps) inner (arguments ps) ≡ texts str ps
  unfolding vsprintf convert
  vsprintf-pieces [] inner d = refl
  vsprintf-pieces (char c ∷ ps) inner (ne, d) =
      let other : (c == b'%') ≡ false = ground (arith, ne) in
      rw (other, vsprintf-pieces ps inner d) (map_bind (c ∷ []) (texts str ps))
  vsprintf-pieces (percent_sign ∷ ps) inner (u, d) =
      rw (vsprintf-pieces ps inner d) (map_bind (b'%' ∷ []) (texts str ps))
  vsprintf-pieces (number m ∷ ps) inner (u, d) =
      converted b'd' m (spell ps) inner (arguments ps) (print_int m) (texts str ps)
        (with_rest (print_int m) (arguments ps)
          (λ r. do t ← vsprintf str plain (spell ps) r.0 r.1; some (padded b' ' 0 r.0 ++ t)))
        (λ s. vsprintf-pieces ps s d)
  vsprintf-pieces (hex m ∷ ps) inner (u, d) =
      converted b'x' m (spell ps) inner (arguments ps) (some (u2a m)) (texts str ps) refl
        (λ s. vsprintf-pieces ps s d)
  vsprintf-pieces (string p ∷ ps) inner (u, d) =
      converted b's' p (spell ps) inner (arguments ps) (in_inner_buf (str p)) (texts str ps)
        (with_rest (in_inner_buf (str p)) (arguments ps)
          (λ r. do t ← vsprintf str plain (spell ps) r.0 r.1; some (padded b' ' 0 r.0 ++ t)))
        (λ s. vsprintf-pieces ps s d)
  vsprintf-pieces (character m ∷ ps) inner (u, d) =
      converted b'c' m (spell ps) inner (arguments ps) (some (until_nul (m % 0x100))) (texts str ps)
        refl (λ s. vsprintf-pieces ps s d)

  piece-Matches :
      (p : Piece) → IsPiece str p → (s : List ℕ) × (text_of str p ≡ some s) × Matches str p s
  piece-Matches (char c) h = (c ∷ [], refl, refl)
  piece-Matches percent_sign h = (b'%' ∷ [], refl, refl)
  piece-Matches (number m) (h, ne) = print_int-IsDecimal m h ne
  piece-Matches (hex m) h =
      let (back, prefix, eight, _, _, _) = hex-reads m h in (u2a m, refl, (prefix, eight, back))
  piece-Matches (string p) h = (str p, ground (arith, h), refl)
  piece-Matches (character m) h = (until_nul (m % 0x100), refl, refl)

  texts-AllMatch :
      (ps : List Piece)
      → All (IsPiece str) ps
      → (ts : List (List ℕ)) × (texts str ps ≡ some (join ts)) × AllMatch str ps ts
  texts-AllMatch [] d = ([], refl, tt)
  texts-AllMatch (p ∷ ps) (h, d) =
      let (s, e, m) = piece-Matches p h in
      let (ts, f, ms) = texts-AllMatch ps d in (s ∷ ts, rw (e, f) refl, (m, ms))

  pub vsprintf-texts :
      (ps : List Piece) (inner : List ℕ)
      → All (IsPiece str) ps
      → (ts : List (List ℕ)) × (vsprintf str plain (spell ps) inner (arguments ps) ≡ some (join ts))
        × AllMatch str ps ts
  vsprintf-texts ps inner d =
      let (ts, e, m) = texts-AllMatch ps d in (ts, vsprintf-pieces ps inner d ∙ e, m)
