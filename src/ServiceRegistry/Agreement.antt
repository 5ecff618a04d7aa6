-- ===== src/ServiceRegistry/Agreement.antt =====
-- Shared/Discovery/ServiceRegistry.cpp: each call against the directory.
use mathlib.Core.Path.{subst}
use helianthus.Prelude.{
  ℕ, ◌+◌, ◌%◌, ◌≤◌, ◌<◌, ◌≡◌, refl, sym, ap, ◌∙◌, ◌≢◌, inl, inr, true, false, not, ◌||◌, none, some,
  List, [], ◌∷◌, ◌++◌, arith, u64_mod, find_id, put_id, remove_id, length, Name, find, put, remove,
  leb, Bool-cases, Option-cases,
}
use helianthus.Discovery.{DiscoveryResult, ServiceInstance}
use helianthus.ServiceRegistry.{
  ServiceInstanceEntry, ServiceRegistry, ids_of, update_stats_on_registration,
  update_stats_on_deregistration, new_entry, entered, is_empty, register_service,
}
use helianthus.ServiceRegistry.Removal.{
  no_ids, deregistered, deregister_service, erase_all, deregister_service_by_name,
}
use helianthus.ServiceRegistry.Lookup.{get_service, get_services_by_name, instances_of}
use helianthus.ServiceRegistry.Listing.{Services, named_ids, contents, named, unnamed, put_id-new}
use helianthus.ServiceRegistry.Contents.{
  find_id-contents, contents-remove_id, length-contents, instances_of-named,
}
use helianthus.ServiceRegistry.Erasing.{
  others, contents-others, erase_all-keeps, services-erase_named,
}
use helianthus.ServiceRegistry.Indexed.{
  IsIndexed, fresh_id, enter-IsIndexed, remove-IsIndexed, others-IsIndexed,
}
use helianthus.ServiceRegistry.Directory.{
  Call, Reply, perform, Directory, nothing_named, admitted, expected,
}
use helianthus.ServiceRegistry.Refines.{directory, Indexed, Agrees, agree, unchanged}

contents-append :
    (m : Services) (k : ℕ) (e : ServiceInstanceEntry)
    → contents (m ++ ((k, e) ∷ [])) ≡ contents m ++ ((k, e.instance) ∷ [])
unfolding contents
contents-append [] k e = refl
contents-append ((j, d) ∷ m) k e = ap (λ l. (j, d.instance) ∷ l) (contents-append m k e)

entered-directory :
    (now : ℕ) (x : ServiceInstance) (r : ServiceRegistry)
    → Indexed r
    → r.next_instance_id + 1 < u64_mod
    → directory (update_stats_on_registration (entered now x r)) ≡ admitted x (directory r)
unfolding directory update_stats_on_registration
entered-directory now x r h b =
    let p =
      ap contents (put_id-new r.next_instance_id (new_entry now x r) r.services (fresh_id h))
      ∙ contents-append r.services r.next_instance_id (new_entry now x r) in
    let n : (r.next_instance_id + 1) % u64_mod ≡ r.next_instance_id + 1 = omega arith in
    ground arith

entered-Indexed :
    (now : ℕ) (x : ServiceInstance) (r : ServiceRegistry)
    → Indexed r
    → r.next_instance_id + 1 < u64_mod
    → Indexed (update_stats_on_registration (entered now x r))
unfolding update_stats_on_registration
entered-Indexed now x r h b =
    let n : r.next_instance_id + 1 ≡ (r.next_instance_id + 1) % u64_mod = omega arith in
    subst
      (λ k.
        IsIndexed (put_id r.next_instance_id (new_entry now x r) r.services)
          (put x.service_name
            (ids_of x.service_name r.services_by_name ++ (r.next_instance_id ∷ []))
            r.services_by_name)
          k)
      n (enter-IsIndexed (new_entry now x r) r.services r.services_by_name r.next_instance_id h)

next-entered :
    (now : ℕ) (x : ServiceInstance) (r : ServiceRegistry)
    → (update_stats_on_registration (entered now x r)).next_instance_id ≤ r.next_instance_id + 1
unfolding update_stats_on_registration
next-entered now x r = omega arith

-- Where both refuse alike, nothing changes.
refusal-Agrees :
    (a : DiscoveryResult) (c : Call) (r : ServiceRegistry)
    → perform c r ≡ (Reply.entry a none, r)
    → expected c (directory r) ≡ (Reply.entry a none, directory r)
    → Indexed r
    → Agrees (perform c r) (expected c (directory r)) r.next_instance_id
refusal-Agrees a c r e f h =
    agree r.next_instance_id (perform c r) (Reply.entry a none, r) (expected c (directory r))
      (Reply.entry a none, directory r) e f (unchanged (Reply.entry a none) r h)

pub register-Agrees :
    (now : ℕ) (x : ServiceInstance) (r : ServiceRegistry)
    → Indexed r
    → r.next_instance_id + 1 < u64_mod
    → Agrees
        (perform (Call.register now x) r)
        (expected (Call.register now x) (directory r))
        r.next_instance_id
unfolding perform expected register_service directory
register-Agrees now x r h b =
    let c : Call = Call.register now x in
    let l = length-contents r.services in
    elim (Bool-cases (not r.initialized || r.maintenance_mode)) [
      | inl t ↦ refusal-Agrees DiscoveryResult.internal_error c r (ground arith) (ground arith) h
      | inr t ↦ elim (Bool-cases (is_empty x.service_name)) [
        | inl u ↦
            refusal-Agrees DiscoveryResult.invalid_service_info c r (ground arith) (ground arith) h
        | inr u ↦ elim (Bool-cases (leb r.config.max_services (length r.services))) [
          | inl v ↦ refusal-Agrees DiscoveryResult.registry_full c r (ground arith) (ground arith) h
          | inr v ↦
              let r' : ServiceRegistry = update_stats_on_registration (entered now x r) in
              let a : Reply = Reply.entry DiscoveryResult.success (some r.next_instance_id) in
              agree r.next_instance_id (perform c r) (a, r') (expected c (directory r))
                (a, admitted x (directory r)) (ground arith) (ground arith)
                (
                  refl,
                  entered-directory now x r h b,
                  entered-Indexed now x r h b,
                  next-entered now x r,
                )
        ]
      ]
    ]

pub deregister-Agrees :
    (id : ℕ) (r : ServiceRegistry)
    → Indexed r
    → Agrees
        (perform (Call.deregister id) r)
        (expected (Call.deregister id) (directory r))
        r.next_instance_id
unfolding perform expected deregister_service directory
deregister-Agrees id r h =
    let k = find_id-contents id r.services in
    elim (Option-cases (find_id id r.services)) [
      | inl e ↦
          let z : find_id id (contents r.services) ≡ none = ground arith in
          agree r.next_instance_id (perform (Call.deregister id) r)
            (Reply.answer DiscoveryResult.service_not_found, r)
            (expected (Call.deregister id) (directory r))
            (Reply.answer DiscoveryResult.service_not_found, directory r)
            (rw (deregister_service, e) refl) (rw (expected, z) refl)
            (unchanged (Reply.answer DiscoveryResult.service_not_found) r h)
      | inr there ↦
          let (e, u) = there in
          let z : find_id id (contents r.services) ≡ some e.instance = ground arith in
          let r' = update_stats_on_deregistration (deregistered id e r) in
          agree r.next_instance_id (perform (Call.deregister id) r)
            (Reply.answer DiscoveryResult.success, r') (expected (Call.deregister id) (directory r))
            (
              Reply.answer DiscoveryResult.success,
              record (directory r) { instances = remove_id id (contents r.services) },
            )
            (rw (deregister_service, u) refl) (rw (expected, z) refl)
            (
              refl,
              ap (λ l. record (directory r) { instances = l }) (contents-remove_id id r.services),
              remove-IsIndexed id e r.services r.services_by_name r.next_instance_id u h,
              omega arith,
            )
    ]

nothing_named-named :
    (name : Name) (m : Services)
    → nothing_named (named name (contents m)) ≡ no_ids (named_ids name m)
unfolding named contents named_ids
nothing_named-named name [] = refl
nothing_named-named name ((j, d) ∷ m) = ground (arith, nothing_named-named name m)

ne-nil→no_ids : (ids : List ℕ) → ids ≢ [] → no_ids ids ≡ false
ne-nil→no_ids [] h = absurd (h refl)
ne-nil→no_ids (i ∷ ids) h = refl

same_directory :
    (r r' : ServiceRegistry) (l : List (ℕ × ServiceInstance))
    → r'.initialized ≡ r.initialized
    → r'.maintenance_mode ≡ r.maintenance_mode
    → r'.config ≡ r.config
    → r'.next_instance_id ≡ r.next_instance_id
    → contents r'.services ≡ l
    → directory r' ≡ record (directory r) { instances = l }
unfolding directory
same_directory r r' l i m c n s = ground arith

moved :
    (r : ServiceRegistry) (m : Services) (b : List (Name × List ℕ)) (n : ℕ)
    → IsIndexed m b n
    → r.services ≡ m
    → r.services_by_name ≡ b
    → r.next_instance_id ≡ n
    → Indexed r
moved r m b n h s t k =
    subst (λ x. IsIndexed x r.services_by_name r.next_instance_id) (sym s)
      (subst (λ x. IsIndexed m x r.next_instance_id) (sym t)
        (subst (λ x. IsIndexed m b x) (sym k) h))

pub deregister_name-Agrees :
    (name : Name) (r : ServiceRegistry)
    → Indexed r
    → Agrees
        (perform (Call.deregister_name name) r)
        (expected (Call.deregister_name name) (directory r))
        r.next_instance_id
unfolding perform expected deregister_service_by_name directory
deregister_name-Agrees name r h =
    let c : Call = Call.deregister_name name in
    let n = nothing_named-named name r.services in
    let i = h.index name in
    elim (Option-cases (find name r.services_by_name)) [
      | inl e ↦
          let a : Reply = Reply.answer DiscoveryResult.service_not_found in
          let z : nothing_named (named name (contents r.services)) ≡ true = ground arith in
          agree r.next_instance_id (perform c r) (a, r) (expected c (directory r)) (a, directory r)
            (ground arith) (ground arith) (unchanged a r h)
      | inr there ↦
          let (ids, u) = there in
          let a : Reply = Reply.answer DiscoveryResult.success in
          let same : ids ≡ named_ids name r.services = ground arith in
          let some_there : no_ids ids ≡ false =
            ne-nil→no_ids ids (λ e. h.filled name (u ∙ ap some e)) in
          let z : nothing_named (named name (contents r.services)) ≡ false =
            n ∙ sym (ap no_ids same) ∙ some_there in
          let rest = erase_all ids r in
          let keeps = erase_all-keeps ids r in
          let s : rest.services ≡ others name r.services =
            ap (λ l. (erase_all l r).services) same ∙ services-erase_named name r h.unique in
          let r' : ServiceRegistry = record rest {
            services_by_name = remove name rest.services_by_name;
          } in
          let o = contents-others name r.services in
          let d : Directory = record (directory r) {
            instances = unnamed name (contents r.services);
          } in
          agree r.next_instance_id (perform c r) (a, r') (expected c (directory r)) (a, d)
            (ground arith) (ground arith)
            (
              refl,
              same_directory r r' (unnamed name (contents r.services)) keeps.2 keeps.3 keeps.4
                  keeps.1 (ap contents s ∙ o),
              moved r' (others name r.services) (remove name r.services_by_name) r.next_instance_id
                  (others-IsIndexed name r.services r.services_by_name r.next_instance_id h) s
                  (ap (remove name) keeps.0) keeps.1,
              omega (arith, keeps.1),
            )
    ]

pub get-Agrees :
    (id : ℕ) (r : ServiceRegistry)
    → Indexed r
    → Agrees (perform (Call.get id) r) (expected (Call.get id) (directory r)) r.next_instance_id
unfolding perform expected get_service directory
get-Agrees id r h = (ap Reply.found (sym (find_id-contents id r.services)), refl, h, omega arith)

pub get_name-Agrees :
    (name : Name) (r : ServiceRegistry)
    → Indexed r
    → Agrees
        (perform (Call.get_name name) r)
        (expected (Call.get_name name) (directory r))
        r.next_instance_id
unfolding perform expected get_services_by_name directory
get_name-Agrees name r h = (
  ap Reply.listed (
      ap (λ ids. instances_of ids r.services) (h.index name)
      ∙ instances_of-named name r.services h.unique),
  refl,
  h,
  omega arith,
)
