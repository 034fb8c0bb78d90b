-- ===== src/Instr/Select.antt =====
-- A table of patterns as one of field tests: the rows in order, each with the comparisons of its pattern.
-- What is known of some fields then decides the rows.
use mathlib.Core.Path.{fun_ext}
use nemu.Base.{
  ℕ, ◌≡◌, refl, ap, ◌∙◌, Bool, true, false, ◌&&◌, ◌==◌, if◌then◌else◌, List, [], ◌∷◌, arith,
}
use nemu.Base.{field, Bool-cases, inl, inr, Option}
use nemu.Pattern.Fields.{tests, is_pattern, matches-tests}
use nemu.Instr.{Decode, Found, Row, Table, select}

unfoldable pub select_fields : (ℕ → ℕ → ℕ) → List Row → Table → Table
select_fields part [] rest d = rest d
select_fields part (r ∷ rows) rest d =
    let later = select_fields part rows rest d in
    if tests r.pattern_text part then r.body d else later

unfoldable pub are_patterns : List Row → Bool
are_patterns [] = true
are_patterns (r ∷ rows) = is_pattern r.pattern_text && are_patterns rows

-- A table whose rows have patterns that the code accepts selects the first row whose fields have the values
-- that its pattern names.
pub select-select_fields :
    (rows : List Row) (rest : Table)
    → are_patterns rows ≡ true
    → (d : Decode) → select rows rest d ≡ select_fields (field d.instr) rows rest d
unfolding select select_fields are_patterns
select-select_fields [] rest h d = refl
select-select_fields (r ∷ rows) rest h d =
    rw
      (
        matches-tests r.pattern_text (ground arith) d.instr,
        select-select_fields rows rest (ground arith) d,
      )
      refl

-- The value of a field of an instruction.
pub record Fact : Type 0 where
  pub lo : ℕ
  pub len : ℕ
  pub value : ℕ

abbrev pub fact : ℕ → ℕ → ℕ → Fact
fact lo len value = record { lo = lo; len = len; value = value }

infixr 5 ◌also◌
pub data Known (w : ℕ) : List Fact → Type 0 where
  nothing : Known w []
  ◌also◌ :
      {lo len value : ℕ} {fs : List Fact}
      → field w lo len ≡ value
      → Known w fs
      → Known w (fact lo len value ∷ fs)

pub known :
    {w value : ℕ} {fs : List Fact} (lo len : ℕ)
    → field w lo len ≡ value
    → Known w fs
    → Known w (fact lo len value ∷ fs)
known lo len e k = e also k

-- The fields of an instruction, where the known ones are their values.
unfoldable pub part_of : List Fact → ℕ → ℕ → ℕ → ℕ
part_of [] w lo len = field w lo len
part_of (f ∷ fs) w lo len =
    let rest = part_of fs w lo len in if (lo == f.lo) && (len == f.len) then f.value else rest

part_of_lem :
    {w : ℕ} {fs : List Fact} → Known w fs → (lo len : ℕ) → field w lo len ≡ part_of fs w lo len
unfolding part_of
part_of_lem nothing lo len = refl
part_of_lem {w} (◌also◌ {lo = l} {len = n} {value} {fs} e k) lo len =
    elim (Bool-cases ((lo == l) && (len == n))) [
      | inl y ↦
          let same_lo : lo ≡ l = ground arith in
          let same_len : len ≡ n = ground arith in
          rw y (ap (λ (t : ℕ). field w t len) same_lo ∙ ap (λ (t : ℕ). field w l t) same_len ∙ e)
      | inr other ↦ rw other (part_of_lem k lo len)
    ]

pub select-Known :
    (rows : List Row) (rest : Table) {fs : List Fact}
    → are_patterns rows ≡ true
    → (d : Decode) → Known d.instr fs
    → select rows rest d ≡ select_fields (part_of fs d.instr) rows rest d
select-Known rows rest h d k =
    select-select_fields rows rest h d
    ∙ ap (λ (part : ℕ → ℕ → ℕ). select_fields part rows rest d)
        (fun_ext λ lo. fun_ext λ len. part_of_lem k lo len)

-- The same for a table that first tries the rows `short` where `same` holds.
pub guarded-Known :
    (same : Bool) (short rows : List Row) (rest : Table) {fs : List Fact}
    → are_patterns short ≡ true
    → are_patterns rows ≡ true
    → (d : Decode) → Known d.instr fs
    → (if same then select short (λ _. select rows rest d) d else select rows rest d) ≡ (
        let general = select_fields (part_of fs d.instr) rows rest d in
        if same then select_fields (part_of fs d.instr) short (λ _. general) d else general)
guarded-Known true short rows rest {fs} h h' d k =
    select-Known short (λ _. select rows rest d) h d k
    ∙ ap (λ (t : Option Found). select_fields (part_of fs d.instr) short (λ _. t) d)
        (select-Known rows rest h' d k)
guarded-Known false short rows rest h h' d k = select-Known rows rest h' d k
