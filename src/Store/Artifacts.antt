-- ===== src/Store/Artifacts.antt =====
-- SaveArtifact and GetArtifact (internal/store/store.go).
use mathlib.Core.Path.{subst}
use durarun_operator.Prelude.{
  ℤ, String, ◌≡◌, refl, sym, ap, ◌∙◌, Bool, true, false, Option, none, some, List, [], ◌∷◌, ◌++◌,
  find_if, any, str_eq, eq_iff, eq_refl, if◌then◌else◌, arith, Bool-cases, inl, inr,
}
use durarun_operator.Store.{Database, Artifact, Result, ok, failed, no_rows, has_job}
use durarun_operator.Store.Table.{insert_when-ok}
use durarun_operator.Store.Records.{
  save_artifact, get_artifact, found_content, is_artifact, write_content,
}

-- The content of the first row with the name.
abbrev pub content_of : Option Artifact → Result String
content_of none = failed no_rows
content_of (some a) = ok a.content

found_content-first : (o : Option Artifact) (db : Database) → (found_content o db).0 ≡ content_of o
found_content-first none db = refl
found_content-first (some a) db = refl

content-other :
    (job name other content : String) (rows : List Artifact)
    → str_eq name other ≡ false
    → content_of (find_if (is_artifact job other) (write_content job name content rows))
      ≡ content_of (find_if (is_artifact job other) rows)
content-other job name other content [] d = refl
content-other job name other content (a ∷ rows) d = ground (
  arith,
  content-other job name other content rows d,
  d,
  eq_iff a.name name,
  eq_iff a.name other,
  eq_iff name other,
)

content-written :
    (job name content : String) (rows : List Artifact)
    → any (is_artifact job name) rows ≡ true
    → content_of (find_if (is_artifact job name) (write_content job name content rows)) ≡ ok content
content-written job name content [] h = absurd (ground (arith, h))
content-written job name content (a ∷ rows) h = elim (Bool-cases (is_artifact job name a)) [
  | inl e ↦ ground (arith, e)
  | inr e ↦ ground (arith, content-written job name content rows (ground (arith, h, e)), e)
]

find-absent :
    (job name : String) (rows : List Artifact)
    → any (is_artifact job name) rows ≡ false
    → content_of (find_if (is_artifact job name) rows) ≡ failed no_rows
find-absent job name [] h = refl
find-absent job name (a ∷ rows) h = ground (arith, find-absent job name rows, h)

content-added :
    (job name : String) (a : Artifact) (rows : List Artifact)
    → content_of (find_if (is_artifact job name) (rows ++ a ∷ [])) ≡ (
        if any (is_artifact job name) rows
        then content_of (find_if (is_artifact job name) rows)
        else if is_artifact job name a
        then ok a.content
        else failed no_rows)
content-added job name a [] = ground arith
content-added job name a (b ∷ rows) = ground (arith, content-added job name a rows)

get_artifact-content :
    (job name : String) (db : Database)
    → (get_artifact job name db).0 ≡ content_of (find_if (is_artifact job name) db.artifacts)
unfolding get_artifact
get_artifact-content job name db =
    found_content-first (find_if (is_artifact job name) db.artifacts) db

-- The second of two ways, when the first was not taken.
accepted :
    (b : Bool) (x y : Result Unit × Database)
    → b ≡ false
    → (if b then x else y).0 ≡ ok tt
    → y.0 ≡ ok tt
accepted b x y e h = ground (arith, e, h)

written_all :
    (job name content other : String) (rows : List Artifact)
    → any (is_artifact job name) rows ≡ true
    → content_of (find_if (is_artifact job other) (write_content job name content rows)) ≡ (
        if str_eq name other then ok content else content_of (find_if (is_artifact job other) rows))
written_all job name content other rows h = elim (Bool-cases (str_eq name other)) [
  | inl e ↦
      rw (e, if◌then◌else◌)
        (subst
          (λ o.
            content_of (find_if (is_artifact job o) (write_content job name content rows))
            ≡ ok content)
          ((eq_iff name other).0 e) (content-written job name content rows h))
  | inr e ↦ rw (e, if◌then◌else◌) (content-other job name other content rows e)
]

added_all :
    (id job name content other : String) (now : ℤ) (rows : List Artifact)
    → any (is_artifact job name) rows ≡ false
    → content_of (
        find_if (is_artifact job other) (
          rows
          ++ record { id = id; job_id = job; name = name; content = content; created_at = now }
            ∷ []))
      ≡ (if str_eq name other
          then ok content
          else content_of (find_if (is_artifact job other) rows))
added_all id job name content other now rows h = elim (Bool-cases (str_eq name other)) [
  | inl e ↦
      let same = (eq_iff name other).0 e in
      ground (
        arith,
        content-added job other
            (record { id = id; job_id = job; name = name; content = content; created_at = now })
            rows,
        subst (λ o. any (is_artifact job o) rows ≡ false) same h,
        e,
        eq_refl job,
      )
  | inr e ↦ ground (
    arith,
    content-added job other
        (record { id = id; job_id = job; name = name; content = content; created_at = now }) rows,
    find-absent job other rows,
    e,
  )
]

-- SaveArtifact, when it returns no error, makes GetArtifact return what was saved under that name,
-- whether the name was new or not; under the other names of the job GetArtifact returns what it
-- returned before.
pub get_artifact-save_artifact :
    (id job name content other : String) (now : ℤ) (db : Database)
    → (save_artifact id job name content now db).0 ≡ ok tt
    → (get_artifact job other (save_artifact id job name content now db).1).0
      ≡ (if str_eq name other then ok content else (get_artifact job other db).0)
unfolding save_artifact
get_artifact-save_artifact id job name content other now db h =
    get_artifact-content job other _
    ∙ elim (Bool-cases (any (is_artifact job name) db.artifacts)) [
      | inl e ↦ rw (e, if◌then◌else◌) (written_all job name content other db.artifacts e)
      | inr e ↦
          let made : Database → Database = λ d. record d {
            artifacts =
                d.artifacts
                ++ record {
                  id = id;
                  job_id = job;
                  name = name;
                  content = content;
                  created_at = now;
                }
                  ∷ [];
          } in
          let done =
            insert_when-ok (any (λ a. str_eq a.id id) db.artifacts) (has_job job db)
              (λ d. (ok tt, made d)) db tt
              (accepted (any (is_artifact job name) db.artifacts) _ _ e h) in
          rw (e, if◌then◌else◌)
            (subst
              (λ r. content_of (find_if (is_artifact job other) r.1.artifacts) ≡ (
                if str_eq name other
                then ok content
                else content_of (find_if (is_artifact job other) db.artifacts)))
              (sym done) (added_all id job name content other now db.artifacts e))
    ]
    ∙ ap (λ r. if str_eq name other then ok content else r)
        (sym (get_artifact-content job other db))
