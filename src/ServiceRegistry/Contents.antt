-- ===== src/ServiceRegistry/Contents.antt =====
-- Shared/Discovery/ServiceRegistry.cpp: the services as a map from ids to instances.
use helianthus.Prelude.{
  ℕ, suc, ◌≡◌, refl, ap, inl, inr, none, some, [], ◌∷◌, arith, find_id, put_id, remove_id,
  find_id-put_id, find_id-remove_id, length, Name, ◌==◌, Bool-cases,
}
use helianthus.ServiceRegistry.{ServiceInstanceEntry}
use helianthus.ServiceRegistry.Lookup.{instances_of}
use helianthus.ServiceRegistry.Listing.{Services, named_ids, Unique, contents, named}

pub find_id-contents :
    (k : ℕ) (m : Services)
    → find_id k (contents m) ≡ elim (find_id k m) [ none ↦ none | some e ↦ some e.instance ]
unfolding find_id contents
find_id-contents k [] = refl
find_id-contents k ((j, c) ∷ m) = ground (arith, find_id-contents k m)

pub contents-put_id :
    (k : ℕ) (e : ServiceInstanceEntry) (m : Services)
    → contents (put_id k e m) ≡ put_id k e.instance (contents m)
unfolding put_id contents
contents-put_id k e [] = refl
contents-put_id k e ((j, c) ∷ m) = ground (arith, contents-put_id k e m)

pub contents-remove_id :
    (k : ℕ) (m : Services) → contents (remove_id k m) ≡ remove_id k (contents m)
unfolding remove_id contents
contents-remove_id k [] = refl
contents-remove_id k ((j, c) ∷ m) = ground (arith, contents-remove_id k m)

pub length-contents : (m : Services) → length (contents m) ≡ length m
unfolding contents
length-contents [] = refl
length-contents ((j, c) ∷ m) = ap suc (length-contents m)

pub Unique-put_id :
    (k : ℕ) (e : ServiceInstanceEntry) (m : Services) → Unique m → Unique (put_id k e m)
unfolding put_id find_id Unique
Unique-put_id k e [] u = (refl, tt)
Unique-put_id k e ((j, c) ∷ m) u = elim (Bool-cases (j == k)) [
  | inl t ↦ rw t u
  | inr t ↦ rw t (ground (arith, find_id-put_id k j e m), Unique-put_id k e m u.1)
]

pub Unique-remove_id : (k : ℕ) (m : Services) → Unique m → Unique (remove_id k m)
unfolding remove_id find_id Unique
Unique-remove_id k [] u = tt
Unique-remove_id k ((j, c) ∷ m) u = elim (Bool-cases (j == k)) [
  | inl t ↦ rw t (Unique-remove_id k m u.1)
  | inr t ↦ rw t (ground (arith, find_id-remove_id k j m), Unique-remove_id k m u.1)
]

-- An id that is not registered stands in no list of ids.
instances_of-cons :
    (name : Name) (k : ℕ) (c : ServiceInstanceEntry) (n m : Services)
    → find_id k n ≡ none
    → instances_of (named_ids name n) ((k, c) ∷ m) ≡ instances_of (named_ids name n) m
unfolding instances_of named_ids find_id
instances_of-cons name k c [] m h = refl
instances_of-cons name k c ((j, d) ∷ n) m h = ground (arith, instances_of-cons name k c n m)

pub instances_of-named :
    (name : Name) (m : Services)
    → Unique m
    → instances_of (named_ids name m) m ≡ named name (contents m)
unfolding instances_of named_ids contents named Unique find_id
instances_of-named name [] u = refl
instances_of-named name ((j, d) ∷ m) u =
    ground (arith, instances_of-named name m, instances_of-cons name j d m m)
