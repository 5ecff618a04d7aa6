-- ===== src/ServiceRegistry/Listing.antt =====
-- Shared/Discovery/ServiceRegistry.cpp: the ids that have a name, under the changes of the services.
use helianthus.Prelude.{
  ℕ, ◌≡◌, refl, sym, ap, ◌∙◌, inl, inr, false, none, some, List, [], ◌∷◌, ◌++◌, arith, find_id,
  put_id, remove_id, Name, same_name, ◌==◌, if◌then◌else◌, Bool-cases,
}
use helianthus.Discovery.{ServiceInstance}
use helianthus.ServiceRegistry.{ServiceInstanceEntry}
use helianthus.ServiceRegistry.Removal.{without}

abbrev pub Services : Type 0
Services = List (ℕ × ServiceInstanceEntry)

unfoldable pub named_ids : Name → Services → List ℕ
named_ids name [] = []
named_ids name ((id, e) ∷ m) =
    if same_name e.instance.service_name name then id ∷ named_ids name m else named_ids name m

unfoldable pub Unique : Services → Type 0
Unique [] = Unit
Unique ((id, e) ∷ m) = (find_id id m ≡ none) × Unique m

-- The services as a map from ids to instances.
unfoldable pub contents : Services → List (ℕ × ServiceInstance)
contents [] = []
contents ((id, e) ∷ m) = (id, e.instance) ∷ contents m

unfoldable pub named : Name → List (ℕ × ServiceInstance) → List ServiceInstance
named name [] = []
named name ((id, x) ∷ m) = if same_name x.service_name name then x ∷ named name m else named name m

unfoldable pub unnamed : Name → List (ℕ × ServiceInstance) → List (ℕ × ServiceInstance)
unnamed name [] = []
unnamed name ((id, x) ∷ m) =
    if same_name x.service_name name then unnamed name m else (id, x) ∷ unnamed name m

pub put_id-new :
    (k : ℕ) (e : ServiceInstanceEntry) (m : Services)
    → find_id k m ≡ none
    → put_id k e m ≡ m ++ ((k, e) ∷ [])
unfolding put_id find_id
put_id-new k e [] h = refl
put_id-new k e ((j, d) ∷ m) h = ground (arith, put_id-new k e m)

pub named_ids-append :
    (name : Name) (k : ℕ) (e : ServiceInstanceEntry) (m : Services)
    → named_ids name (m ++ ((k, e) ∷ [])) ≡ (
        if same_name e.instance.service_name name
        then named_ids name m ++ (k ∷ [])
        else named_ids name m)
unfolding named_ids
named_ids-append name k e [] = refl
named_ids-append name k e ((j, d) ∷ m) = ground (arith, named_ids-append name k e m)

pub named_ids-put_id :
    (name : Name) (k : ℕ) (d e : ServiceInstanceEntry) (m : Services)
    → find_id k m ≡ some d
    → e.instance.service_name ≡ d.instance.service_name
    → named_ids name (put_id k e m) ≡ named_ids name m
unfolding named_ids put_id find_id
named_ids-put_id name k d e [] h s = cc
named_ids-put_id name k d e ((j, c) ∷ m) h s = elim (Bool-cases (j == k)) [
  | inl t ↦
      let n : c.instance.service_name ≡ d.instance.service_name = ground arith in
      let b = ap (λ (x : Name). same_name x name) s ∙ sym (ap (λ (x : Name). same_name x name) n) in
      ground arith
  | inr t ↦ ground (arith, named_ids-put_id name k d e m)
]

pub named_ids-remove_id :
    (name : Name) (k : ℕ) (m : Services)
    → named_ids name (remove_id k m) ≡ without k (named_ids name m)
unfolding named_ids remove_id without
named_ids-remove_id name k [] = refl
named_ids-remove_id name k ((j, c) ∷ m) = ground (arith, named_ids-remove_id name k m)

pub without-absent :
    (name : Name) (k : ℕ) (m : Services)
    → find_id k m ≡ none
    → without k (named_ids name m) ≡ named_ids name m
unfolding named_ids find_id without
without-absent name k [] h = refl
without-absent name k ((j, c) ∷ m) h = ground (arith, without-absent name k m)

pub without-other :
    (name : Name) (k : ℕ) (d : ServiceInstanceEntry) (m : Services)
    → Unique m
    → find_id k m ≡ some d
    → same_name d.instance.service_name name ≡ false
    → without k (named_ids name m) ≡ named_ids name m
unfolding named_ids find_id without Unique
without-other name k d [] u h s = cc
without-other name k d ((j, c) ∷ m) u h s = elim (Bool-cases (j == k)) [
  | inl t ↦
      let e : c ≡ d = ground arith in
      let b = ap (λ (x : ServiceInstanceEntry). same_name x.instance.service_name name) e in
      let a : find_id k m ≡ none = ground arith in ground (arith, without-absent name k m)
  | inr t ↦ ground (arith, without-other name k d m)
]
