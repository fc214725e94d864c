-- ===== src/Tty/Line.antt =====
-- src/kernel/tty.c: what `do_read` leaves in the buffer.
use aneasyos.Base.{
  ℕ, zero, suc, ◌+◌, ◌-◌, ◌≤◌, ◌≡◌, refl, ◌≢◌, sym, ◌∙◌, ◌⊎◌, inl, inr, Option, none, some, List,
  [], ◌∷◌, ◌++◌, arith, ltb, ◌==◌, ◌&&◌, if◌then◌else◌, update, update_self, Bool-cases,
}
use aneasyos.Base.Lists.{length, All}
use aneasyos.Tty.{do_read, do_read_from}

-- Line editing as a user sees it: the line so far, last character first. A backspace erases the
-- last character; on an empty line it is a character like any other.
unfoldable pub edit : List ℕ → List ℕ → List ℕ
edit line [] = line
edit [] (c ∷ cs) = edit (c ∷ []) cs
edit (l ∷ line) (c ∷ cs) = edit (if c == 8 then line else c ∷ l ∷ line) cs

-- The first `n` characters of a buffer, the last one first.
unfoldable pub held : (ℕ → ℕ) → ℕ → List ℕ
held buf zero = []
held buf (suc n) = buf n ∷ held buf n

held-update : (buf : ℕ → ℕ) (i v n : ℕ) → n ≤ i → held (update buf i v) n ≡ held buf n
unfolding held
held-update buf i v zero h = refl
held-update buf i v (suc n) h = ground (arith, held-update buf i v n)

held_store : (buf : ℕ → ℕ) (n v : ℕ) → held (update buf n v) (n + 1) ≡ v ∷ held buf n
unfolding held
held_store buf n v =
    let e : n + 1 ≡ suc n = omega arith in rw e (ground (arith, held-update buf n v n))

-- One character of the loop, on the abstract line.
edit_step :
    (buf : ℕ → ℕ) (cnt c : ℕ) (cs : List ℕ)
    → edit (held buf cnt) (c ∷ cs) ≡ (
        if (c == 8) && ltb 0 cnt
        then edit (held buf (cnt - 1)) cs
        else edit (held (update buf cnt c) (cnt + 1)) cs)
edit_step buf zero c cs = rw (held_store buf zero c) (unfold edit held in ground arith)
edit_step buf (suc n) c cs =
    let e : suc n - 1 ≡ n = omega arith in
    rw (held_store buf (suc n) c, e) (unfold edit held in ground arith)

-- What `do_read` returns for a line: the count, the buffer and the rest of the input.
abbrev pub Reads : Option (ℕ × (ℕ → ℕ) × List ℕ) → List ℕ → List ℕ → (ℕ → ℕ) → ℕ → Type 0
Reads result line rest buf bound =
    (n : ℕ) × (buf' : ℕ → ℕ) × (result ≡ some (n, buf', rest))
    × (held buf' n ≡ line)
    × (buf' n ≡ 0)
    × ((j : ℕ) → (j ≤ bound) ⊎ (buf' j ≡ buf j))

do_read_from-Reads :
    (cs rest : List ℕ) (cnt : ℕ) (buf : ℕ → ℕ)
    → All (λ c. c ≢ b'\n') cs
    → Reads
        (do_read_from (cs ++ b'\n' ∷ rest) cnt buf)
        (edit (held buf cnt) cs)
        rest
        buf
        (cnt + length cs)
unfolding do_read_from
do_read_from-Reads [] rest cnt buf h = (
  cnt,
  update buf cnt 0,
  refl,
  held-update buf cnt 0 cnt (omega arith) ∙ edit_nil,
  update_self buf cnt 0,
  λ j. ground arith,
)
  where
    edit_nil : held buf cnt ≡ edit (held buf cnt) []
    edit_nil = unfold edit in ground arith
do_read_from-Reads (c ∷ cs) rest cnt buf h = elim (Bool-cases ((c == 8) && ltb 0 cnt)) [
  | inl erase ↦
      let (n, buf', e, l, z, out) = do_read_from-Reads cs rest (cnt - 1) buf h.1 in
      (
        n,
        buf',
        ground arith,
        l ∙ sym (edit_step buf cnt c cs ∙ rw erase),
        z,
        λ j. ground (arith, out j),
      )
  | inr store ↦
      let (n, buf', e, l, z, out) = do_read_from-Reads cs rest (cnt + 1) (update buf cnt c) h.1 in
      (
        n,
        buf',
        ground arith,
        l ∙ sym (edit_step buf cnt c cs ∙ rw store),
        z,
        λ j. ground (arith, out j),
      )
]

-- When the characters before a newline have been typed, `do_read` returns: it takes exactly them
-- and the newline from the input, the first characters of the buffer, as many as the count says,
-- are the edited line, a NUL follows them, and nothing is written beyond as many places as
-- characters were typed.
pub do_read-edit :
    (cs rest : List ℕ) (buf : ℕ → ℕ)
    → All (λ c. c ≢ b'\n') cs
    → Reads (do_read (cs ++ b'\n' ∷ rest) buf) (edit [] cs) rest buf (length cs)
unfolding do_read held
do_read-edit cs rest buf h =
    let (n, buf', e, l, z, out) = do_read_from-Reads cs rest 0 buf h in
    (n, buf', e, l, z, λ j. ground (arith, out j))

do_read_from_waits :
    (cs : List ℕ) (cnt : ℕ) (buf : ℕ → ℕ) → All (λ c. c ≢ b'\n') cs → do_read_from cs cnt buf ≡ none
unfolding do_read_from
do_read_from_waits [] cnt buf h = refl
do_read_from_waits (c ∷ cs) cnt buf h = ground (
  arith,
  do_read_from_waits cs (cnt - 1) buf h.1,
  do_read_from_waits cs (cnt + 1) (update buf cnt c) h.1,
)

-- With no newline among the characters typed so far, `do_read` is still waiting.
pub do_read_waits : (cs : List ℕ) (buf : ℕ → ℕ) → All (λ c. c ≢ b'\n') cs → do_read cs buf ≡ none
unfolding do_read
do_read_waits cs buf h = do_read_from_waits cs 0 buf h
