-- ===== src/Runtime/Config.antt =====
-- `EffectSpec` and `TaskConfig`.
use graph_core.Base.{List, [], Option, none, some, if◌then◌else◌}
use graph_core.Base.BTreeMap.{BTreeMap, keys, insert, contains_key}
use graph_core.Core.Ident.{Text, Ident, ident_ord}
use graph_core.Recovery.Model.{OperationId, EffectSemantics}

pub record EffectSpec : Type 0 where
  pub operation_id : OperationId
  pub semantics : EffectSemantics

pub record TaskConfig : Type 0 where
  pub required : BTreeMap Ident (Option Text)
  pub effect : Option EffectSpec

abbrev pub new : TaskConfig
new = record { required = []; effect = none }

-- `entry(capability_id).or_insert(None)`.
unfoldable pub require_capability : TaskConfig → Ident → TaskConfig
require_capability c capability_id =
    if contains_key capability_id c.required
    then c
    else record c { required = insert capability_id none c.required }

unfoldable pub require_capability_with_identity : TaskConfig → Ident → Text → TaskConfig
require_capability_with_identity c capability_id definition_identity = record c {
  required = insert capability_id (some definition_identity) c.required;
}

unfoldable pub with_effect : TaskConfig → OperationId → EffectSemantics → TaskConfig
with_effect c operation_id semantics = record c {
  effect = some (record { operation_id = operation_id; semantics = semantics });
}

unfoldable pub required_capabilities : TaskConfig → List Ident
required_capabilities c = keys c.required
