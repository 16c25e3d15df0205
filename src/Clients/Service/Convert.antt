-- ===== src/Clients/Service/Convert.antt =====
-- clients/service/converters.go: rows as messages of protobuf/clients.proto. A stored time is never
-- Go's zero time.
use rvpay_go.Base.{String, Option, List, [], ◌∷◌, ◌++◌, str_eq, if◌then◌else◌}
use rvpay_go.Base.Effect.{invalid_argument, status, Action, or_raise}
use rvpay_go.Clients.Model.{
  Uuid, Time, ClientStatus, IntegrationStatus, Client, Platform, Integration, Db,
}

pub data GrpcClientStatus : Type 0 where
  unspecified registered active suspended closed : GrpcClientStatus

pub data GrpcIntegrationStatus : Type 0 where
  unspecified created oauth_pending active revoked : GrpcIntegrationStatus

pub data GrpcPlatformStatus : Type 0 where
  unspecified active disabled : GrpcPlatformStatus

pub data GrpcProviderCapability : Type 0 where
  unspecified oauth webhook : GrpcProviderCapability

pub record ClientProto : Type 0 where
  pub id : String
  pub name : String
  pub status : GrpcClientStatus
  pub created_at : Time
  pub updated_at : Time

pub record PlatformProto : Type 0 where
  pub id : String
  pub name : String
  pub display_name : String
  pub slug : String
  pub status : GrpcPlatformStatus
  pub capabilities : List GrpcProviderCapability
  pub created_at : Time
  pub updated_at : Time

pub record IntegrationProto : Type 0 where
  pub id : String
  pub client_id : String
  pub platform_id : String
  pub external_account_id : String
  pub status : GrpcIntegrationStatus
  pub installed_at : Time
  pub last_sync_at : Option Time
  pub created_at : Time
  pub updated_at : Time

-- The text of the column, `string(c.Status)`.
unfoldable pub client_status_text : ClientStatus → String
client_status_text ClientStatus.registered = "REGISTERED"
client_status_text ClientStatus.active = "ACTIVE"
client_status_text ClientStatus.suspended = "SUSPENDED"
client_status_text ClientStatus.closed = "CLOSED"

unfoldable pub integration_status_text : IntegrationStatus → String
integration_status_text IntegrationStatus.created = "CREATED"
integration_status_text IntegrationStatus.oauth_pending = "OAUTH_PENDING"
integration_status_text IntegrationStatus.active = "ACTIVE"
integration_status_text IntegrationStatus.revoked = "REVOKED"

-- The generated map `ClientStatus_value`, 0 for a key that it lacks.
unfoldable pub client_status_value : String → GrpcClientStatus
client_status_value name =
    if str_eq name "CLIENT_STATUS_REGISTERED"
    then GrpcClientStatus.registered
    else if str_eq name "CLIENT_STATUS_ACTIVE"
    then GrpcClientStatus.active
    else if str_eq name "CLIENT_STATUS_SUSPENDED"
    then GrpcClientStatus.suspended
    else if str_eq name "CLIENT_STATUS_CLOSED"
    then GrpcClientStatus.closed
    else GrpcClientStatus.unspecified

unfoldable pub integration_status_value : String → GrpcIntegrationStatus
integration_status_value name =
    if str_eq name "INTEGRATION_STATUS_CREATED"
    then GrpcIntegrationStatus.created
    else if str_eq name "INTEGRATION_STATUS_OAUTH_PENDING"
    then GrpcIntegrationStatus.oauth_pending
    else if str_eq name "INTEGRATION_STATUS_ACTIVE"
    then GrpcIntegrationStatus.active
    else if str_eq name "INTEGRATION_STATUS_REVOKED"
    then GrpcIntegrationStatus.revoked
    else GrpcIntegrationStatus.unspecified

-- The converters of the other direction, which no handler calls.
unfoldable pub proto_status_to_sqlc_client_status : GrpcClientStatus → ClientStatus
proto_status_to_sqlc_client_status GrpcClientStatus.active = ClientStatus.active
proto_status_to_sqlc_client_status GrpcClientStatus.suspended = ClientStatus.suspended
proto_status_to_sqlc_client_status GrpcClientStatus.closed = ClientStatus.closed
proto_status_to_sqlc_client_status _ = ClientStatus.registered

unfoldable pub proto_status_to_sqlc_integration_status : GrpcIntegrationStatus → IntegrationStatus
proto_status_to_sqlc_integration_status GrpcIntegrationStatus.active = IntegrationStatus.active
proto_status_to_sqlc_integration_status GrpcIntegrationStatus.oauth_pending =
    IntegrationStatus.oauth_pending
proto_status_to_sqlc_integration_status GrpcIntegrationStatus.revoked = IntegrationStatus.revoked
proto_status_to_sqlc_integration_status _ = IntegrationStatus.created

-- `uuid.UUID.String` and `uuid.Parse`.
pub record UuidText : Type 0 where
  pub uuid_string : Uuid → String
  pub parse : String → Option Uuid

module _ (text : UuidText) where
  unfoldable pub sqlc_client_to_proto : Client → ClientProto
  sqlc_client_to_proto c = record {
    id = text.uuid_string c.id;
    name = c.client_name;
    status = client_status_value (client_status_text c.status);
    created_at = c.created_at;
    updated_at = c.updated_at;
  }

  unfoldable pub sqlc_platform_to_proto : Platform → PlatformProto
  sqlc_platform_to_proto p = record {
    id = text.uuid_string p.id;
    name = p.name;
    display_name = p.display_name;
    slug = p.slug;
    status = if p.enabled then GrpcPlatformStatus.active else GrpcPlatformStatus.disabled;
    capabilities =
        (if p.oauth_capable then GrpcProviderCapability.oauth ∷ [] else [])
        ++ (if p.webhook_capable then GrpcProviderCapability.webhook ∷ [] else []);
    created_at = p.created_at;
    updated_at = p.updated_at;
  }

  unfoldable pub sqlc_integration_to_proto : Integration → IntegrationProto
  sqlc_integration_to_proto i = record {
    id = text.uuid_string i.id;
    client_id = text.uuid_string i.client_id;
    platform_id = text.uuid_string i.platform_id;
    external_account_id = i.external_account_id;
    status = integration_status_value (integration_status_text i.status);
    installed_at = i.installed_at;
    last_sync_at = i.last_sync_at;
    created_at = i.created_at;
    updated_at = i.updated_at;
  }

  unfoldable pub parse_uuid : String → Action Db Uuid
  parse_uuid id = or_raise (text.parse id) (status invalid_argument "invalid UUID format")
