-- ===== src/KnowledgeBases/RoundTrip.antt =====
-- A catalog that was loaded is written so that it loads as the same records.
use raguardian.Prelude.Texts.{truncate-truncate}
use raguardian.Prelude.{
  String, ◌≡◌, refl, inl, inr, true, none, some, List, [], ◌∷◌, arith, Option-cases, ◌==◌, filter,
  nat_eq, string_eq, option_eq, pair_eq,
}
use raguardian.KnowledgeBases.Catalog.{
  Builtins, KnowledgeBase, Value, null, string, other, text_of, Raw, not_object, object,
  not_catalog, catalog, File, missing, unreadable, holds, validate_knowledge_base_name,
  validate_knowledge_base_description, validate_timestamp, normalize, validate_records,
  default_count, with_one_default, validate_catalog, dump_record, dump_records, dump,
}
use raguardian.KnowledgeBases.{load}

-- `s.strip().strip() == s.strip()`
abbrev pub StripsOnce : Builtins → Type 0
StripsOnce py = (s : String) → py.strip (py.strip s) ≡ py.strip s

module _ (py : Builtins) (once : StripsOnce py) where
  name_again :
      (v : Value) (name : String)
      → validate_knowledge_base_name py v ≡ some name
      → validate_knowledge_base_name py (string name) ≡ some name
  unfolding validate_knowledge_base_name
  name_again (string s) name h = ground (arith, once s)
  name_again null name h = absurd (ground arith)
  name_again (other b s) name h = absurd (ground arith)

  description_again :
      (v : Value) (description : String)
      → validate_knowledge_base_description py v ≡ some description
      → validate_knowledge_base_description py (string description) ≡ some description
  unfolding validate_knowledge_base_description
  description_again (string s) description h = ground (arith, once s)
  description_again null description h = absurd (ground arith)
  description_again (other b s) description h = absurd (ground arith)

  timestamp_again :
      (v : Value) (t : String)
      → validate_timestamp py v ≡ some t
      → validate_timestamp py (string t) ≡ some t
  unfolding validate_timestamp text_of
  timestamp_again v t h = ground (arith, once (text_of v))

  normalize_again :
      (raw : Raw) (r : KnowledgeBase)
      → normalize py raw ≡ some r
      → normalize py (dump_record r) ≡ some r
  unfolding normalize dump_record text_of
  normalize_again not_object r h = absurd (ground arith)
  normalize_again (object id name description status created_at updated_at delete_error requester) r
        h =
      elim (Option-cases (validate_knowledge_base_name py name)) [
        | inl miss ↦ absurd (ground (arith, miss))
        | inr (n, hn) ↦ elim (Option-cases (validate_knowledge_base_description py description)) [
          | inl miss ↦ absurd (ground (arith, hn, miss))
          | inr (d, hd) ↦ elim (Option-cases (validate_timestamp py created_at)) [
            | inl miss ↦ absurd (ground (arith, hn, hd, miss))
            | inr (c, hc) ↦ elim (Option-cases (validate_timestamp py updated_at)) [
              | inl miss ↦ absurd (ground (arith, hn, hd, hc, miss))
              | inr (u, hu) ↦ ground (
                arith,
                hn,
                hd,
                hc,
                hu,
                name_again name n hn,
                description_again description d hd,
                timestamp_again created_at c hc,
                timestamp_again updated_at u hu,
                truncate-truncate 1000 (text_of delete_error),
              )
            ]
          ]
        ]
      ]

  validate_records_again :
      (raws : List Raw) (ids names : List String) (rs : List KnowledgeBase)
      → validate_records py raws ids names ≡ some rs
      → validate_records py (dump_records rs) ids names ≡ some rs
  unfolding validate_records dump_records
  validate_records_again [] ids names [] h = refl
  validate_records_again [] ids names (r ∷ rs) h = absurd (ground arith)
  validate_records_again (raw ∷ raws) ids names rs h = elim (Option-cases (normalize py raw)) [
    | inl miss ↦ absurd (ground (arith, miss))
    | inr (r, hr) ↦
        let folded = py.casefold r.name in
        elim (Option-cases (validate_records py raws (r.id ∷ ids) (folded ∷ names))) [
          | inl miss ↦ absurd (ground (arith, hr, miss))
          | inr (rest, hrest) ↦ ground (
            arith,
            hr,
            hrest,
            normalize_again raw r hr,
            validate_records_again raws (r.id ∷ ids) (folded ∷ names) rest hrest,
          )
        ]
  ]

  with_one_default-some :
      (rs rs' : List KnowledgeBase)
      → with_one_default py rs ≡ some rs'
      → (rs ≡ rs') × ((default_count py rs == 1) ≡ true)
  unfolding with_one_default
  with_one_default-some rs rs' h = ground arith

  dump_validates :
      (rs : List KnowledgeBase)
      → validate_records py (dump_records rs) [] [] ≡ some rs
      → (default_count py rs == 1) ≡ true
      → validate_catalog py (dump rs) ≡ some rs
  unfolding validate_catalog dump dump_records default_count filter with_one_default
  dump_validates [] h one = absurd (ground arith)
  dump_validates (r ∷ rs) h one = rw (h, one) refl

  -- If `strip` has no effect on a stripped text: the records that a load of any catalog file returns
  -- are written by a store so that the next load returns the same records.
  pub load_again :
      (file : File) (rs : List KnowledgeBase)
      → load py file ≡ some rs
      → load py (holds (dump rs)) ≡ some rs
  unfolding load validate_catalog
  load_again missing rs h = absurd (ground arith)
  load_again unreadable rs h = absurd (ground arith)
  load_again (holds not_catalog) rs h = absurd (ground arith)
  load_again (holds (catalog version none)) rs h = absurd (ground arith)
  load_again (holds (catalog version (some []))) rs h = absurd (ground arith)
  load_again (holds (catalog version (some (raw ∷ raws)))) rs h =
      elim (Option-cases (validate_records py (raw ∷ raws) [] [])) [
        | inl miss ↦ absurd (ground (arith, miss))
        | inr (read, hread) ↦
            let (is, one) = with_one_default-some read rs (ground (arith, hread)) in
            let again = validate_records_again (raw ∷ raws) [] [] read hread in
            dump_validates rs (rw (← is) again) (rw (← is) one)
      ]
