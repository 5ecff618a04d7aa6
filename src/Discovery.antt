-- ===== src/Discovery.antt =====
-- Shared/Discovery/DiscoveryTypes.h: the types that the registry, the health checks and the load
-- balancer share.
use helianthus.Prelude.{ℕ, ◌/◌, Bool, true, false, ◌&&◌, List, Name, ltb}

pub data DiscoveryResult : Type 0 where
  success failed service_not_found service_already_registered invalid_service_info : DiscoveryResult
  registry_full network_error timeout authentication_failed permission_denied internal_error :
      DiscoveryResult

pub data ServiceState : Type 0 where
  unknown starting healthy unhealthy critical maintenance shutting_down offline : ServiceState

abbrev pub state_code : ServiceState → ℕ
state_code ServiceState.unknown = 0
state_code ServiceState.starting = 1
state_code ServiceState.healthy = 2
state_code ServiceState.unhealthy = 3
state_code ServiceState.critical = 4
state_code ServiceState.maintenance = 5
state_code ServiceState.shutting_down = 6
state_code ServiceState.offline = 7

-- What the registry and the load balancer read of an instance.
pub record ServiceInstance : Type 0 where
  pub instance_id : ℕ
  pub service_name : Name
  pub state : ServiceState
  pub current_health_score : ℕ
  pub active_connections : ℕ
  pub max_connections : ℕ
  pub tags : List (Name × Name)
  pub region : Name
  pub zone : Name

abbrev pub max_health_score : ℕ
max_health_score = 100

abbrev pub is_healthy_state : ServiceState → Bool
is_healthy_state ServiceState.healthy = true
is_healthy_state _ = false

unfoldable pub is_healthy : ServiceInstance → Bool
is_healthy x = is_healthy_state x.state && ltb (max_health_score / 2) x.current_health_score

unfoldable pub can_accept_connections : ServiceInstance → Bool
unfolding is_healthy
can_accept_connections x = is_healthy x && ltb x.active_connections x.max_connections
