-- ===== src/Kite/Tags.antt =====
-- The stored tags of src/etf_platform/execution_manager/kite_tag_encoding.py: what is recorded can
-- be resolved, also after the file is read again.
use etf_platform_paper_mode.Common.{
  ℕ, ◌≡◌, refl, sym, ap, ◌∙◌, Option, none, some, List, [], ◌∷◌, ◌++◌, arith, ◌==◌, if◌then◌else◌,
  ◌⊎◌, inl, inr, Bool, Bool-cases,
}
use etf_platform_paper_mode.Common.Dict.{Dict, lookup, insert, lookup-insert, lookup-insert_self}
use etf_platform_paper_mode.Kite.{
  TagMappingStore, read_rows, open_tags, resolve, add_tag, record_tag, encode_tag,
}

read_rows-++ :
    (cache : Dict ℕ) (rows : List (ℕ × ℕ)) (tag ref : ℕ)
    → read_rows cache (rows ++ (tag, ref) ∷ []) ≡ insert tag ref (read_rows cache rows)
read_rows-++ cache [] tag ref = refl
read_rows-++ cache ((t, r) ∷ rows) tag ref = read_rows-++ (insert t r cache) rows tag ref

none_not_some : {v : ℕ} → ¬ (none ≡ some v)
none_not_some h = cc

insert-inv :
    (k j v w : ℕ) (d : Dict ℕ)
    → lookup j (insert k v d) ≡ some w
    → ((k ≡ j) × (v ≡ w)) ⊎ (lookup j d ≡ some w)
insert-inv k j v w d h =
    let entry_if : Bool → Option ℕ = λ b. if b then some v else lookup j d in
    let here = sym (lookup-insert k j v d) ∙ h in
    elim (Bool-cases (k == j)) [
      | inl same ↦
          let now : some v ≡ some w = sym (ap entry_if same) ∙ here in inl (ground arith, cc)
      | inr other ↦ inr (sym (ap entry_if other) ∙ here)
    ]

insert-kept :
    (k j v w : ℕ) (d : Dict ℕ)
    → lookup k d ≡ none
    → lookup j d ≡ some w
    → lookup j (insert k v d) ≡ some w
insert-kept k j v w d free h = elim (Bool-cases (k == j)) [
  | inl same ↦
      let here : k ≡ j = ground arith in
      absurd (none_not_some (sym free ∙ ap (λ i. lookup i d) here ∙ h))
  | inr other ↦ rw (lookup-insert k j v d, other) h
]

module _ (sha256 : ℕ → ℕ) where
  -- The cache is what the file says, and its tags are digests of their references.
  pub record IsConsistent (tags : TagMappingStore) : Type 0 where
    pub read : tags ≡ open_tags tags.rows
    pub encoded : (tag ref : ℕ) → resolve tag tags ≡ some ref → encode_tag sha256 ref ≡ tag

  -- No other reference that the store holds has the tag of this one.
  abbrev pub NoCollision : (ref : ℕ) → TagMappingStore → Type 0
  NoCollision ref tags =
      (tag other : ℕ)
      → resolve tag tags ≡ some other
      → encode_tag sha256 other ≡ encode_tag sha256 ref
      → other ≡ ref

  -- What recording a reference does to a store of tags.
  pub record Records (ref : ℕ) (tags tags' : TagMappingStore) : Type 0 where
    pub consistent : IsConsistent tags'
    pub resolved : resolve (encode_tag sha256 ref) tags' ≡ some ref
    pub kept : (tag old : ℕ) → resolve tag tags ≡ some old → resolve tag tags' ≡ some old
    pub reopened : (tag : ℕ) → resolve tag (open_tags tags'.rows) ≡ resolve tag tags'

  add_tag-Records :
      (ref : ℕ) (tags : TagMappingStore) (found : Option ℕ)
      → NoCollision ref tags
      → IsConsistent tags
      → resolve (encode_tag sha256 ref) tags ≡ found
      → Records ref tags (add_tag (encode_tag sha256 ref) ref found tags)
  unfolding resolve open_tags
  add_tag-Records ref tags (some old) distinct ok_tags h = record {
    consistent = ok_tags;
    resolved =
        h
        ∙ ap some (
            distinct (encode_tag sha256 ref) old h (ok_tags.encoded (encode_tag sha256 ref) old h));
    kept = λ _ _ e. e;
    reopened = λ tag. ap (resolve tag) (sym ok_tags.read);
  }
  add_tag-Records ref tags none distinct ok_tags h = record {
    consistent = record {
      read = read;
      encoded = λ tag other e.
          elim (insert-inv (encode_tag sha256 ref) tag ref other tags.cache e) [
            | inl (at, same) ↦ sym (ap (encode_tag sha256) same) ∙ at
            | inr before ↦ ok_tags.encoded tag other before
          ];
    };
    resolved = lookup-insert_self (encode_tag sha256 ref) ref tags.cache;
    kept = λ tag old e. insert-kept (encode_tag sha256 ref) tag ref old tags.cache h e;
    reopened = λ tag. ap (resolve tag) (sym read);
  }
    where
      read :
          add_tag (encode_tag sha256 ref) ref none tags
          ≡ open_tags (add_tag (encode_tag sha256 ref) ref none tags).rows
      read =
          ap (λ c. record { rows = tags.rows ++ (encode_tag sha256 ref, ref) ∷ []; cache = c })
            (ap (λ t. insert (encode_tag sha256 ref) ref t.cache) ok_tags.read
              ∙ sym (read_rows-++ [] tags.rows (encode_tag sha256 ref) ref))

  -- From a store that is what its file says and whose tags are those of their references, and if no
  -- other reference in it has the tag of this one: once the reference is recorded, its tag resolves
  -- to it, the tags of before resolve as they did, a store opened on the file resolves the same,
  -- and the store is again one of this kind.
  pub record_tag-Records :
      (ref : ℕ) (tags : TagMappingStore)
      → NoCollision ref tags
      → IsConsistent tags
      → Records ref tags (record_tag sha256 ref tags).1
  unfolding record_tag
  record_tag-Records ref tags distinct ok_tags =
      add_tag-Records ref tags (resolve (encode_tag sha256 ref) tags) distinct ok_tags refl
