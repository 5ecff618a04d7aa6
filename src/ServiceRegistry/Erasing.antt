-- ===== src/ServiceRegistry/Erasing.antt =====
-- Shared/Discovery/ServiceRegistry.cpp: taking every service of a name out.
use helianthus.Prelude.{
  ℕ, ◌≡◌, refl, ap, ◌∙◌, inl, inr, none, some, List, [], ◌∷◌, arith, find_id, remove_id, Name,
  same_name, same_name→eq, eq→same_name, ◌==◌, if◌then◌else◌, Bool-cases,
}
use helianthus.ServiceRegistry.{
  ServiceInstanceEntry, ServiceRegistry, update_stats_on_deregistration,
}
use helianthus.ServiceRegistry.Removal.{erase_all}
use helianthus.ServiceRegistry.Listing.{Services, named_ids, Unique, contents, unnamed}

remove_all : List ℕ → Services → Services
remove_all [] m = m
remove_all (k ∷ ks) m = remove_all ks (remove_id k m)

pub others : Name → Services → Services
others name [] = []
others name ((id, e) ∷ m) =
    if same_name e.instance.service_name name then others name m else (id, e) ∷ others name m

-- A registration that is not in the list stays in front.
remove_all-cons :
    (name : Name) (k : ℕ) (c : ServiceInstanceEntry) (n m : Services)
    → find_id k n ≡ none
    → remove_all (named_ids name n) ((k, c) ∷ m) ≡ (k, c) ∷ remove_all (named_ids name n) m
unfolding remove_all named_ids find_id remove_id
remove_all-cons name k c [] m h = refl
remove_all-cons name k c ((j, d) ∷ n) m h =
    ground (arith, remove_all-cons name k c n m, remove_all-cons name k c n (remove_id j m))

remove_id-absent : (k : ℕ) (m : Services) → find_id k m ≡ none → remove_id k m ≡ m
unfolding find_id remove_id
remove_id-absent k [] h = refl
remove_id-absent k ((j, d) ∷ m) h = ground (arith, remove_id-absent k m)

remove_all-named :
    (name : Name) (m : Services) → Unique m → remove_all (named_ids name m) m ≡ others name m
unfolding remove_all named_ids others Unique remove_id
remove_all-named name [] u = refl
remove_all-named name ((j, d) ∷ m) u =
    let a = ap (remove_all (named_ids name m)) (remove_id-absent j m u.0) in
    ground (arith, remove_all-named name m, remove_all-cons name j d m m)

pub contents-others :
    (name : Name) (m : Services) → contents (others name m) ≡ unnamed name (contents m)
unfolding others contents unnamed
contents-others name [] = refl
contents-others name ((j, d) ∷ m) = ground (arith, contents-others name m)

pub find_id-others :
    (name : Name) (k : ℕ) (e : ServiceInstanceEntry) (m : Services)
    → Unique m
    → find_id k (others name m) ≡ some e
    → find_id k m ≡ some e
unfolding others find_id Unique
find_id-others name k e [] u h = h
find_id-others name k e ((j, d) ∷ m) u h =
    let ih = find_id-others name k e m u.1 in
    elim (Bool-cases (j == k)) [
      | inl t ↦ elim (Bool-cases (same_name d.instance.service_name name)) [
        | inl s ↦
            let f : find_id k (others name m) ≡ some e = ground arith in
            let a = ih f in let b : find_id k m ≡ none = ground arith in cc
        | inr s ↦ ground arith
      ]
      | inr t ↦ ground (arith, find_id-others name k e m u.1)
    ]

others-absent :
    (name : Name) (k : ℕ) (m : Services) → find_id k m ≡ none → find_id k (others name m) ≡ none
unfolding others find_id
others-absent name k [] h = refl
others-absent name k ((j, d) ∷ m) h = ground (arith, others-absent name k m)

pub Unique-others : (name : Name) (m : Services) → Unique m → Unique (others name m)
unfolding others Unique
Unique-others name [] u = tt
Unique-others name ((j, d) ∷ m) u = elim (Bool-cases (same_name d.instance.service_name name)) [
  | inl s ↦ rw s (Unique-others name m u.1)
  | inr s ↦ rw s (others-absent name j m u.0, Unique-others name m u.1)
]

pub named_ids-others :
    (name other : Name) (m : Services)
    → named_ids other (others name m) ≡ (if same_name name other then [] else named_ids other m)
unfolding others named_ids
named_ids-others name other [] = ground arith
named_ids-others name other ((j, d) ∷ m) = ground (
  arith,
  named_ids-others name other m,
  same_name→eq d.instance.service_name name,
  same_name→eq name other,
  same_name→eq d.instance.service_name other,
  eq→same_name d.instance.service_name name,
  eq→same_name name other,
  eq→same_name d.instance.service_name other,
)

-- What erasing leaves of the services; the rest but the statistics stays.
services-erase_all :
    (ids : List ℕ) (r : ServiceRegistry) → (erase_all ids r).services ≡ remove_all ids r.services
unfolding erase_all remove_all
services-erase_all [] r = refl
services-erase_all (id ∷ ids) r =
    services-erase_all ids
      (update_stats_on_deregistration (record r { services = remove_id id r.services }))

pub erase_all-keeps :
    (ids : List ℕ) (r : ServiceRegistry)
    → ((erase_all ids r).services_by_name ≡ r.services_by_name)
      × ((erase_all ids r).next_instance_id ≡ r.next_instance_id)
      × ((erase_all ids r).initialized ≡ r.initialized)
      × ((erase_all ids r).maintenance_mode ≡ r.maintenance_mode)
      × ((erase_all ids r).config ≡ r.config)
unfolding erase_all
erase_all-keeps [] r = (refl, refl, refl, refl, refl)
erase_all-keeps (id ∷ ids) r =
    erase_all-keeps ids
      (update_stats_on_deregistration (record r { services = remove_id id r.services }))

pub services-erase_named :
    (name : Name) (r : ServiceRegistry)
    → Unique r.services
    → (erase_all (named_ids name r.services) r).services ≡ others name r.services
services-erase_named name r u =
    services-erase_all (named_ids name r.services) r ∙ remove_all-named name r.services u
