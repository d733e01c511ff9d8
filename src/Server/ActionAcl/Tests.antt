-- ===== src/Server/ActionAcl/Tests.antt =====
-- The action list at work: a definition that hides a denied action in its arguments.
use file_automation.Base.{String, str_eq, Bool, ◌||◌, none, [], ◌∷◌, ◌≡◌, refl}
use file_automation.Base.Json.{Json, text, array, object, no_items, item, no_fields, field}
use file_automation.Server.ActionAcl.{ActionAcl, not_permitted, enforce}
use file_automation.Server.ActionAcl.Judged.{Judges, enforce-Judges}

abbrev registered : String → Bool
registered name = str_eq name "FA_delete" || str_eq name "FA_execute_action"

abbrev no_deletes : ActionAcl
no_deletes = record { allowed = none; denied = "FA_delete" ∷ [] }

abbrev nested : Json
nested = object (
    field "actions"
      (array (
        item
          (array (
            item (text "FA_execute_action") (
              item
                (object (
                  field "list" (array (item (array (item (text "FA_delete") no_items)) no_items))
                    no_fields))
                no_items)))
          no_items))
      no_fields)

enforce-nested : enforce no_deletes registered nested ≡ not_permitted "FA_delete"
unfolding enforce
enforce-nested = refl

enforce-Judges_example : Judges no_deletes registered nested (enforce no_deletes registered nested)
enforce-Judges_example = enforce-Judges no_deletes registered nested
