-- ===== src/Sessions/Repair/Rows.antt =====
-- `repair_local`: the rows of `threads` after the changes.
use codex_shuttle.Prelude.{
  String, ◌≡◌, refl, sym, ap, ◌∙◌, inl, inr, Bool, true, false, ◌||◌, List, [], ◌∷◌, arith, ◌==◌,
  string_eq, any, Bool-cases,
}
use text.Mathlib.TextEquality.{eq_iff}
use codex_shuttle.Sessions.Rollout.{RolloutMeta}
use codex_shuttle.Sessions.Apply.{update_rows, update_threads}
use codex_shuttle.Sessions.Changes.{RolloutChange, ThreadRow}

-- A change is for the thread.
abbrev pub names_thread : String → List RolloutChange → Bool
names_thread id changes = any (λ change. change.meta.id == id) changes

-- One row before and after: a thread of a change has the provider, another is the same, and without a
-- `cwd` column no directory changes.
abbrev pub RowAligned : Bool → String → Bool → ThreadRow → ThreadRow → Type 0
RowAligned has_cwd provider named before after =
    (after.id ≡ before.id)
    × (named ≡ true → after.model_provider ≡ provider)
    × (named ≡ false → after ≡ before)
    × (has_cwd ≡ false → after.cwd ≡ before.cwd)

-- The rows one by one.
abbrev pub RowsAligned : Bool → String → (String → Bool) → List ThreadRow → List ThreadRow → Type 0
RowsAligned has_cwd provider named [] [] = Unit
RowsAligned has_cwd provider named (row ∷ rows) [] = ⊥
RowsAligned has_cwd provider named [] (row ∷ rows) = ⊥
RowsAligned has_cwd provider named (before ∷ befores) (after ∷ afters) =
    RowAligned has_cwd provider (named before.id) before after
    × RowsAligned has_cwd provider named befores afters

update_rows-RowsAligned :
    (has_cwd : Bool) (provider : String) (meta : RolloutMeta) (rows : List ThreadRow)
    → RowsAligned has_cwd provider
        (λ id. meta.id == id)
        rows
        (update_rows has_cwd provider meta rows).0
unfolding update_rows
update_rows-RowsAligned has_cwd provider meta [] = tt
update_rows-RowsAligned has_cwd provider meta (row ∷ rows) = elim (Bool-cases (row.id == meta.id)) [
  | inl same ↦
      rw (update_rows, same)
        (
          (
            refl,
            (λ h. refl),
            (λ h. cc (h, (eq_iff meta.id row.id).1 (sym ((eq_iff row.id meta.id).0 same)))),
            λ h. rw h refl,
          ),
          update_rows-RowsAligned has_cwd provider meta rows,
        )
  | inr other ↦
      rw (update_rows, other)
        (
          (
            refl,
            (λ h. cc (other, (eq_iff row.id meta.id).1 (sym ((eq_iff meta.id row.id).0 h)))),
            (λ h. refl),
            λ h. refl,
          ),
          update_rows-RowsAligned has_cwd provider meta rows,
        )
]

row_trans :
    (has_cwd : Bool) (provider : String) (first second : String → Bool) (a b c : ThreadRow)
    → RowAligned has_cwd provider (first a.id) a b
    → RowAligned has_cwd provider (second b.id) b c
    → RowAligned has_cwd provider (first a.id || second a.id) a c
row_trans has_cwd provider first second a b c (id₁, named₁, other₁, cwd₁)
      (id₂, named₂, other₂, cwd₂) =
    (
      id₂ ∙ id₁,
      λ h. elim (Bool-cases (second b.id)) [
        | inl here ↦ named₂ here
        | inr gone ↦
            ap (λ row. row.model_provider) (other₂ gone)
            ∙ named₁ (ground (arith, h, rw id₁ at gone))
      ],
      λ h. other₂ (rw id₁ (ground (arith, h))) ∙ other₁ (ground (arith, h)),
      λ h. cwd₂ h ∙ cwd₁ h,
    )

rows_trans :
    (has_cwd : Bool) (provider : String) (first second : String → Bool) (xs bs cs : List ThreadRow)
    → RowsAligned has_cwd provider first xs bs
    → RowsAligned has_cwd provider second bs cs
    → RowsAligned has_cwd provider (λ id. first id || second id) xs cs
rows_trans has_cwd provider first second [] [] [] h k = tt
rows_trans has_cwd provider first second (a ∷ xs) (b ∷ bs) (c ∷ cs) (h, hs) (k, ks) = (
  row_trans has_cwd provider first second a b c h k,
  rows_trans has_cwd provider first second xs bs cs hs ks,
)
rows_trans has_cwd provider first second [] (b ∷ bs) cs h k = elim h [ ]
rows_trans has_cwd provider first second (a ∷ xs) [] cs h k = elim h [ ]
rows_trans has_cwd provider first second [] [] (c ∷ cs) h k = elim k [ ]
rows_trans has_cwd provider first second (a ∷ xs) (b ∷ bs) [] h k = elim k [ ]

pub rows_refl :
    (has_cwd : Bool) (provider : String) (rows : List ThreadRow)
    → RowsAligned has_cwd provider (λ id. false) rows rows
rows_refl has_cwd provider [] = tt
rows_refl has_cwd provider (row ∷ rows) =
    ((refl, (λ h. cc), (λ h. refl), λ h. refl), rows_refl has_cwd provider rows)

-- After the updates of a repair every row of a changed thread has the target provider, every other row
-- is the same, and no row comes or goes; without a `cwd` column no directory is touched.
pub update_threads-RowsAligned :
    (has_cwd : Bool) (provider : String) (changes : List RolloutChange) (rows : List ThreadRow)
    → RowsAligned has_cwd provider
        (λ id. names_thread id changes)
        rows
        (update_threads has_cwd provider changes rows).0
unfolding update_threads
update_threads-RowsAligned has_cwd provider [] rows = rows_refl has_cwd provider rows
update_threads-RowsAligned has_cwd provider (change ∷ changes) rows =
    rows_trans has_cwd provider (λ id. change.meta.id == id) (λ id. names_thread id changes) rows _
      _ (update_rows-RowsAligned has_cwd provider change.meta rows)
      (update_threads-RowsAligned has_cwd provider changes _)
