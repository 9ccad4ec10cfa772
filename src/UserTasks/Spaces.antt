-- ===== src/UserTasks/Spaces.antt =====
-- core/user_tasks/workspace.py, with the WorkspaceKey of core/workspace/models.py as far as the
-- tasks read it, and what the tasks write of it to their metadata.
use ai_lab_os.Prelude.{
  Bool, ◌&&◌, Option, none, some, String, str_eq, is_blank, strip, if◌then◌else◌,
}
use ai_lab_os.Json.{Json, Fields, object, text, nothing, field, get}

pub record WorkspaceKey : Type 0 where
  pub tenant_id : String
  pub workspace_id : String
  pub namespace : String

-- str(part or "").strip() or "default"
unfoldable pub normal_part : String → String
normal_part part = if is_blank part then "default" else strip part

unfoldable pub normalize_workspace_key : WorkspaceKey → WorkspaceKey
unfolding normal_part
normalize_workspace_key key = record {
  tenant_id = normal_part key.tenant_id;
  workspace_id = normal_part key.workspace_id;
  namespace = normal_part key.namespace;
}

unfoldable pub default_workspace : WorkspaceKey
default_workspace = record {
  tenant_id = "default";
  workspace_id = "default";
  namespace = "default";
}

-- workspace_identity(a) == workspace_identity(b), on normalized keys
abbrev pub same_workspace : WorkspaceKey → WorkspaceKey → Bool
same_workspace a b =
    str_eq a.tenant_id b.tenant_id
    && str_eq a.workspace_id b.workspace_id
    && str_eq a.namespace b.namespace

-- canonical_workspace_metadata, of a normalized key
unfoldable pub canonical_workspace_metadata : WorkspaceKey → Json
canonical_workspace_metadata key = object (
    field "tenant_id" (text key.tenant_id) (
      field "workspace_id" (text key.workspace_id)
        (field "namespace" (text key.namespace) nothing)))

-- A text that `strip` leaves something of.
unfoldable pub evidence_part : String → Fields → Option String
evidence_part key fields = elim (get key fields) [
  | some (text part) ↦ if is_blank part then none else some part
  | _ ↦ none
]

-- Only if all three parts are there.
unfoldable pub key_of_parts : Option String → Option String → Option String → WorkspaceKey
unfolding default_workspace
key_of_parts (some tenant_id) (some workspace_id) (some namespace) = record {
  tenant_id = tenant_id;
  workspace_id = workspace_id;
  namespace = namespace;
}
key_of_parts _ _ _ = default_workspace

unfoldable pub workspace_key_from_evidence : Option Json → WorkspaceKey
unfolding evidence_part key_of_parts default_workspace
workspace_key_from_evidence (some (object fields)) =
    key_of_parts (evidence_part "tenant_id" fields) (evidence_part "workspace_id" fields)
      (evidence_part "namespace" fields)
workspace_key_from_evidence _ = default_workspace
