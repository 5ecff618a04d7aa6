-- ===== src/ServiceRegistry/Indexed.antt =====
-- Shared/Discovery/ServiceRegistry.cpp: the index of the names is right, and stays so.
use helianthus.Prelude.{
  ℕ, ◌+◌, ◌<◌, ◌≡◌, refl, sym, ap, ◌∙◌, ◌≢◌, inl, inr, none, some, List, [], ◌∷◌, ◌++◌, arith,
  find_id, put_id, remove_id, find_id-put_id, find_id-remove_id, Name, same_name, same_name→eq,
  find, put, remove, find-put, find-remove, ◌==◌, if◌then◌else◌, Bool-cases, Option-cases,
}
use helianthus.ServiceRegistry.{ServiceInstanceEntry, ids_of}
use helianthus.ServiceRegistry.Removal.{without, unlisted}
use helianthus.ServiceRegistry.Listing.{
  Services, named_ids, Unique, put_id-new, named_ids-append, named_ids-put_id, named_ids-remove_id,
  without-other,
}
use helianthus.ServiceRegistry.Contents.{Unique-put_id, Unique-remove_id}
use helianthus.ServiceRegistry.Erasing.{others, find_id-others, Unique-others, named_ids-others}

-- The services, the ids by name, and the next id: each name lists the ids that have it, in the order
-- of the services, no list is empty, and the next id is above all.
pub record IsIndexed (m : Services) (b : List (Name × List ℕ)) (next : ℕ) : Type 0 where
  pub index : (name : Name) → ids_of name b ≡ named_ids name m
  pub filled : (name : Name) → find name b ≢ some []
  pub unique : Unique m
  pub below : (id : ℕ) (e : ServiceInstanceEntry) → find_id id m ≡ some e → id < next

ids_of-put :
    (k j : Name) (ids : List ℕ) (b : List (Name × List ℕ))
    → ids_of j (put k ids b) ≡ (if same_name k j then ids else ids_of j b)
ids_of-put k j ids b = ground (arith, find-put k j ids b)

ids_of-remove :
    (k j : Name) (b : List (Name × List ℕ))
    → ids_of j (remove k b) ≡ (if same_name k j then [] else ids_of j b)
ids_of-remove k j b = ground (arith, find-remove k j b)

pub fresh_id :
    {m : Services} {b : List (Name × List ℕ)} {next : ℕ}
    → IsIndexed m b next
    → find_id next m ≡ none
fresh_id {m} {b} {next} h = elim (Option-cases (find_id next m)) [
  | inl e ↦ e
  | inr there ↦ let (e, f) = there in absurd (omega (arith, h.below next e f))
]

append-ne-nil : (ids : List ℕ) (k : ℕ) → ids ++ (k ∷ []) ≢ []
append-ne-nil [] k e = cc
append-ne-nil (i ∷ ids) k e = cc

pub enter-IsIndexed :
    (e : ServiceInstanceEntry) (m : Services) (b : List (Name × List ℕ)) (next : ℕ)
    → IsIndexed m b next
    → IsIndexed
        (put_id next e m)
        (put e.instance.service_name (ids_of e.instance.service_name b ++ (next ∷ [])) b)
        (next + 1)
enter-IsIndexed e m b next h =
    let name : Name = e.instance.service_name in
    let p = put_id-new next e m (fresh_id h) in
    let ids : List ℕ = ids_of name b ++ (next ∷ []) in
    record {
      index = λ n.
          let q = named_ids-append n next e m in
          let s = same_name→eq name n in
          let i = h.index n in
          let k = ids_of-put name n ids b in
          let t : named_ids n (put_id next e m) ≡ named_ids n (m ++ ((next, e) ∷ [])) =
            ap (named_ids n) p in
          elim (Bool-cases (same_name name n)) [
            | inl y ↦
                let z = ap (λ x. ids_of x b ++ (next ∷ [])) (s y) in
                let w = ap (λ l. l ++ (next ∷ [])) i in ground arith
            | inr y ↦ ground arith
          ];
      filled = λ n f.
          let k = find-put name n ids b in
          elim (Bool-cases (same_name name n)) [
            | inl y ↦ append-ne-nil (ids_of name b) next (ground arith)
            | inr y ↦ h.filled n (ground arith)
          ];
      unique = Unique-put_id next e m h.unique;
      below = λ id d f.
          let k = find_id-put_id next id e m in
          elim (Bool-cases (next == id)) [
            | inl y ↦ ground arith
            | inr y ↦ let lt = h.below id d (ground arith) in omega arith
          ];
    }

pub change-IsIndexed :
    (k : ℕ) (d e : ServiceInstanceEntry) (m : Services) (b : List (Name × List ℕ)) (next : ℕ)
    → find_id k m ≡ some d
    → e.instance.service_name ≡ d.instance.service_name
    → IsIndexed m b next
    → IsIndexed (put_id k e m) b next
change-IsIndexed k d e m b next f s h = record {
  index = λ n. h.index n ∙ sym (named_ids-put_id n k d e m f s);
  filled = h.filled;
  unique = Unique-put_id k e m h.unique;
  below = λ id c g.
      let p = find_id-put_id k id e m in
      elim (Bool-cases (k == id)) [
        | inl y ↦ let lt = h.below k d f in ground arith
        | inr y ↦ h.below id c (ground arith)
      ];
}

pub remove-IsIndexed :
    (k : ℕ) (d : ServiceInstanceEntry) (m : Services) (b : List (Name × List ℕ)) (next : ℕ)
    → find_id k m ≡ some d
    → IsIndexed m b next
    → IsIndexed (remove_id k m) (unlisted d.instance.service_name k b) next
remove-IsIndexed k d m b next f h =
    let name : Name = d.instance.service_name in
    let rest : List ℕ = without k (ids_of name b) in
    record {
      index = λ n.
          let p = named_ids-remove_id n k m in
          let i = h.index n in
          let a = ids_of-put name n rest b in
          let c = ids_of-remove name n b in
          elim (Bool-cases (same_name name n)) [
            | inl y ↦
                let z = ap (λ x. without k (ids_of x b)) (same_name→eq name n y) in
                let w = ap (without k) i in ground arith
            | inr y ↦ let o = without-other n k d m h.unique f y in ground arith
          ];
      filled = λ n g.
          let a = find-put name n rest b in
          let c = find-remove name n b in
          elim (Bool-cases (same_name name n)) [
            | inl y ↦ ground arith
            | inr y ↦ h.filled n (ground arith)
          ];
      unique = Unique-remove_id k m h.unique;
      below = λ id c g. let p = find_id-remove_id k id m in h.below id c (ground arith);
    }

pub others-IsIndexed :
    (name : Name) (m : Services) (b : List (Name × List ℕ)) (next : ℕ)
    → IsIndexed m b next
    → IsIndexed (others name m) (remove name b) next
others-IsIndexed name m b next h = record {
  index = λ n.
      let p = named_ids-others name n m in
      let i = h.index n in let c = ids_of-remove name n b in ground arith;
  filled = λ n g.
      let c = find-remove name n b in
      elim (Bool-cases (same_name name n)) [
        | inl y ↦ ground arith
        | inr y ↦ h.filled n (ground arith)
      ];
  unique = Unique-others name m h.unique;
  below = λ id e g. h.below id e (find_id-others name id e m h.unique g);
}

pub empty-IsIndexed : (next : ℕ) → IsIndexed [] [] next
unfolding find find_id named_ids Unique
empty-IsIndexed next = record {
  index = λ n. refl;
  filled = λ n f. cc;
  unique = tt;
  below = λ id e f. cc;
}
