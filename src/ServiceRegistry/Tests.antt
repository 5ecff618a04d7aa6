-- ===== src/ServiceRegistry/Tests.antt =====
-- Shared/Discovery/ServiceRegistry.cpp: runs and applications at concrete values.
use helianthus.Prelude.{
  ◌≡◌, refl, true, false, none, some, List, [], ◌∷◌, arith, find_id, put_id, remove_id, Name,
  same_name, find, put, remove,
}
use helianthus.Discovery.{DiscoveryResult, ServiceState, ServiceInstance}
use helianthus.ServiceRegistry.{
  is_expired, ServiceRegistry, new_entry, entered, register_service, update_service,
}
use helianthus.ServiceRegistry.Removal.{
  erase_all, deregister_service_by_name, cleanup_expired_services,
}
use helianthus.ServiceRegistry.Lookup.{get_service, instances_of, get_services_by_name}
use helianthus.ServiceRegistry.Listing.{contents}
use helianthus.ServiceRegistry.Indexed.{empty-IsIndexed}
use helianthus.ServiceRegistry.Directory.{Call, Reply, perform, perform_all, expected, expected_all}
use helianthus.ServiceRegistry.Refines.{directory, KeepNames}
use helianthus.ServiceRegistry.Refinement.{perform_all_refines}
use helianthus.ServiceRegistry.Cleanup.{cleanup_expired_services-blocks}

abbrev chat : Name
chat = 99 ∷ 104 ∷ []

abbrev game : Name
game = 103 ∷ 97 ∷ []

abbrev instance_of : Name → ServiceInstance
instance_of name = record {
  instance_id = 0;
  service_name = name;
  state = ServiceState.healthy;
  current_health_score = 80;
  active_connections = 0;
  max_connections = 10;
  tags = [];
  region = [];
  zone = [];
}

abbrev started : ServiceRegistry
started = record {
  config = record { max_services = 2; default_ttl_ms = 500; cleanup_interval_ms = 100 };
  initialized = true;
  maintenance_mode = false;
  shutting_down = false;
  cleanup_started = true;
  services = [];
  services_by_name = [];
  next_instance_id = 1;
  stats = record {
    total_services = 0;
    total_service_instances = 0;
    registration_count = 0;
    deregistration_count = 0;
  };
}

abbrev calls : List Call
calls =
    Call.register 10 (instance_of chat)
    ∷ (Call.register 11 (instance_of game)
        ∷ (Call.register 12 (instance_of chat)
            ∷ (Call.update 1 (instance_of chat)
                ∷ (Call.get_name chat
                    ∷ (Call.deregister_name chat ∷ (Call.get 1 ∷ (Call.get_name game ∷ [])))))))

replies : perform_all calls started ≡ (
    Reply.entry DiscoveryResult.success (some 1)
    ∷ (Reply.entry DiscoveryResult.success (some 2)
        ∷ (Reply.entry DiscoveryResult.registry_full none
            ∷ (Reply.answer DiscoveryResult.success
                ∷ (Reply.listed (record (instance_of chat) { instance_id = 1 } ∷ [])
                    ∷ (Reply.answer DiscoveryResult.success
                        ∷ (Reply.found none
                            ∷ (Reply.listed (record (instance_of game) { instance_id = 2 } ∷ [])
                                ∷ []))))))))
unfolding perform_all perform register_service update_service deregister_service_by_name get_service
    get_services_by_name instances_of erase_all put_id find_id find put same_name remove_id remove
replies = refl

perform_all_refines_example : perform_all calls started ≡ expected_all calls (directory started)
unfolding directory contents KeepNames expected put_id find_id
perform_all_refines_example =
    perform_all_refines calls started (empty-IsIndexed 1)
      (tt, (tt, (tt, (refl, (tt, (tt, (tt, (tt, tt)))))))) (omega arith)

abbrev one_service : ServiceRegistry
one_service = entered 100 (instance_of chat) started

cleanup_expired_services-blocks_example : cleanup_expired_services 601 one_service ≡ none
unfolding find_id put_id is_expired
cleanup_expired_services-blocks_example =
    cleanup_expired_services-blocks 601 1 (new_entry 100 (instance_of chat) started) one_service
      refl refl
