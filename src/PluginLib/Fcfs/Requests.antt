-- ===== src/PluginLib/Fcfs/Requests.antt =====
-- src/plugin-lib/fcfs_implementation.cpp: may a job run on a node? `ei_buffer_to_str` of the Erlang
-- interface is a parameter: whether it failed, and the text that it leaves in its argument.
use swm_sched.Prelude.{
  String, String_eq, Bool, true, false, ◌&&◌, not, List, [], ◌∷◌, Option, none, some, if◌then◌else◌,
  ◌==◌, leb, find_if, any, contains,
}
use swm_sched.PluginLib.Entities.{EiBuffer, SwmResource, SwmJob}
use swm_sched.PluginLib.Fcfs.Errors.{Message, resource_not_found}

abbrev pub dyn_req_names : List String
dyn_req_names = "node" ∷ "container-image" ∷ "cloud-image" ∷ "ports" ∷ "submission-address" ∷ []

-- Requests that do not keep a node from being selected.
unfoldable pub is_dynamic_request : String → Bool
is_dynamic_request req_name = contains req_name dyn_req_names

module _ (ei_buffer_to_str : EiBuffer → Bool × String) where
  -- The predicate of the search in `is_node_owned_by_other_job`.
  unfoldable pub owned_by_other : String → SwmResource → Bool
  owned_by_other job_id res =
      if not (res.name == "job") then false else elim (find_if (λ p. p.0 == "id") res.properties) [
        | none ↦ false
        | some (key, buffer) ↦
            if (ei_buffer_to_str buffer).0
            then false
            else res.name == "job" && not ((ei_buffer_to_str buffer).1 == job_id)
      ]

  unfoldable pub is_node_owned_by_other_job : SwmJob → List SwmResource → Bool
  unfolding owned_by_other
  is_node_owned_by_other_job job resources = any (owned_by_other job.id) resources

  -- The property of the request is found among those of the resource, with the same text.
  unfoldable pub has_prop : List (String × EiBuffer) → String × EiBuffer → Bool
  has_prop res_props (key, buffer) =
      any
        (λ p. if p.0 == key then (ei_buffer_to_str p.1).1 == (ei_buffer_to_str buffer).1 else false)
        res_props

  abbrev pub has_props : List (String × EiBuffer) → List (String × EiBuffer) → Bool
  has_props res_props [] = true
  has_props res_props (p ∷ ps) = has_prop res_props p && has_props res_props ps

  -- The predicate of the search in `does_node_fit_request`.
  unfoldable pub provides : SwmResource → SwmResource → Bool
  provides req res =
      if req.name == res.name && leb req.count res.count
      then has_props res.properties req.properties
      else false

  -- `none` if the node fits; otherwise what is written to the error stream.
  unfoldable pub does_node_fit_request : List SwmResource → List SwmResource → Option Message
  unfolding is_dynamic_request provides
  does_node_fit_request [] resources = none
  does_node_fit_request (req ∷ requests) resources =
      let rest = does_node_fit_request requests resources in
      if is_dynamic_request req.name
      then rest
      else if any (provides req) resources
      then rest
      else some (resource_not_found req.name)
