-- ===== src/ServiceRegistry/Refines.antt =====
-- Shared/Discovery/ServiceRegistry.cpp behaves as the directory that it promises.
use mathlib.Core.Path.{subst}
use helianthus.Prelude.{
  ℕ, ◌+◌, ◌≤◌, ◌≡◌, refl, sym, ap, ◌∙◌, inl, inr, Option, none, some, List, [], ◌∷◌, arith, find_id,
  put_id, Name, Option-cases,
}
use helianthus.Discovery.{DiscoveryResult, ServiceInstance}
use helianthus.ServiceRegistry.{ServiceInstanceEntry, ServiceRegistry, change_entry}
use helianthus.ServiceRegistry.Listing.{contents}
use helianthus.ServiceRegistry.Contents.{find_id-contents, contents-put_id}
use helianthus.ServiceRegistry.Indexed.{IsIndexed, change-IsIndexed}
use helianthus.ServiceRegistry.Directory.{Call, Reply, Directory, change, expected}

unfoldable pub directory : ServiceRegistry → Directory
directory r = record {
  initialized = r.initialized;
  maintenance_mode = r.maintenance_mode;
  capacity = r.config.max_services;
  next = r.next_instance_id;
  instances = contents r.services;
}

abbrev pub Indexed : ServiceRegistry → Type 0
Indexed r = IsIndexed r.services r.services_by_name r.next_instance_id

abbrev pub NameOf : Option ServiceInstance → Name → Type 0
NameOf none name = Unit
NameOf (some x) name = name ≡ x.service_name

-- An update keeps the name of the instance.
unfoldable pub KeepsName : Call → Directory → Type 0
KeepsName (Call.update id x) d = NameOf (find_id id d.instances) x.service_name
KeepsName _ d = Unit

unfoldable pub KeepNames : List Call → Directory → Type 0
unfolding KeepsName
KeepNames [] d = Unit
KeepNames (c ∷ cs) d = KeepsName c d × KeepNames cs (expected c d).1

-- The same reply, the same directory, and an index that is right; at most one id is used.
abbrev pub Agrees : Reply × ServiceRegistry → Reply × Directory → ℕ → Type 0
Agrees p q n = (p.0 ≡ q.0) × (directory p.1 ≡ q.1) × Indexed p.1 × (p.1.next_instance_id ≤ n + 1)

abbrev pub answered : DiscoveryResult × ServiceRegistry → Reply × ServiceRegistry
answered p = (Reply.answer p.0, p.1)

pub agree :
    (n : ℕ) (p p' : Reply × ServiceRegistry) (q q' : Reply × Directory)
    → p ≡ p'
    → q ≡ q'
    → Agrees p' q' n
    → Agrees p q n
agree n p p' q q' e f h = subst (λ x. Agrees x q n) (sym e) (subst (λ y. Agrees p' y n) (sym f) h)

pub unchanged :
    (a : Reply) (r : ServiceRegistry)
    → Indexed r
    → Agrees (a, r) (a, directory r) r.next_instance_id
unchanged a r h = (refl, refl, h, omega arith)

pub change-Agrees :
    (f : ServiceInstanceEntry → ServiceInstanceEntry) (g : ServiceInstance → ServiceInstance)
    (id : ℕ) (r : ServiceRegistry)
    → ((e : ServiceInstanceEntry) → (f e).instance ≡ g e.instance)
    → ((e : ServiceInstanceEntry)
        → find_id id r.services ≡ some e
        → (f e).instance.service_name ≡ e.instance.service_name)
    → Indexed r
    → Agrees (answered (change_entry f id r)) (change g id (directory r)) r.next_instance_id
unfolding directory
change-Agrees f g id r same keeps h =
    let k = find_id-contents id r.services in
    elim (Option-cases (find_id id r.services)) [
      | inl e ↦
          let z : find_id id (contents r.services) ≡ none = ground arith in
          agree r.next_instance_id (answered (change_entry f id r))
            (Reply.answer DiscoveryResult.service_not_found, r) (change g id (directory r))
            (Reply.answer DiscoveryResult.service_not_found, directory r)
            (rw (change_entry, e) refl) (rw (change, z) refl)
            (unchanged (Reply.answer DiscoveryResult.service_not_found) r h)
      | inr there ↦
          let (e, u) = there in
          let z : find_id id (contents r.services) ≡ some e.instance = ground arith in
          let r' : ServiceRegistry = record r { services = put_id id (f e) r.services } in
          let l = put_id id (g e.instance) (contents r.services) in
          agree r.next_instance_id (answered (change_entry f id r))
            (Reply.answer DiscoveryResult.success, r') (change g id (directory r))
            (Reply.answer DiscoveryResult.success, record (directory r) { instances = l })
            (rw (change_entry, u) refl) (rw (change, z) refl)
            (
              refl,
              ap (λ l. record (directory r) { instances = l })
                  (contents-put_id id (f e) r.services
                    ∙ ap (λ x. put_id id x (contents r.services)) (same e)),
              change-IsIndexed id e (f e) r.services r.services_by_name r.next_instance_id u
                  (keeps e u) h,
              omega arith,
            )
    ]
