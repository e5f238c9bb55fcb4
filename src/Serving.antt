-- ===== src/Serving.antt =====
-- What a vendor node is like once its constructor has returned: which of its callbacks run in turn, and
-- that its service can wait for the driver's answers.
pub mod Fanuc
pub mod Ur
pub mod Khi
pub mod Vendors
use icon_hwm_controller.Prelude.{
  ℤ, pos, ◌≤ℤ◌, ◌≡◌, String, Bool, true, false, not, ◌&&◌, ◌||◌, List, [], ◌∷◌, Option, none, some,
  if◌then◌else◌,
}
use icon_hwm_controller.Ros.{
  Ros, IntegerRange, ParameterDescriptor, GroupType, mutually_exclusive, reentrant, Group,
  topic_cb_group, clear_faults_service_cb_group, client_cb_group, Entity, callback_group,
  subscription, publisher, wall_timer, service, client, action_client, Built, Process, Executor,
  single_threaded, multi_threaded, declare_timeout,
}

-- rclcpp accepts a value of an integer parameter only in the range of its descriptor.
abbrev pub IsRanged : Ros → Type 0
IsRanged ros =
    (name : String) (default_value : ℤ) (d : ParameterDescriptor IntegerRange) (v : ℤ)
    → ros.declare_integer name default_value d ≡ some v
    → (d.range.from_value ≤ℤ v) × (v ≤ℤ d.range.to_value)

abbrev same_group : Group → Group → Bool
same_group topic_cb_group topic_cb_group = true
same_group clear_faults_service_cb_group clear_faults_service_cb_group = true
same_group client_cb_group client_cb_group = true
same_group _ _ = false

abbrev known : Group → List Group → Bool
known g [] = false
known g (g' ∷ gs) = same_group g g' || known g gs

module _ {Handler : Type 0} where
  -- The handlers that run in a group.
  abbrev pub handlers_in : Group → List (Entity Handler) → List Handler
  handlers_in g [] = []
  handlers_in g (subscription topic h g' ∷ es) =
      let rest = handlers_in g es in if same_group g g' then h ∷ rest else rest
  handlers_in g (wall_timer period h g' ∷ es) =
      let rest = handlers_in g es in if same_group g g' then h ∷ rest else rest
  handlers_in g (service name h g' ∷ es) =
      let rest = handlers_in g es in if same_group g g' then h ∷ rest else rest
  handlers_in g (_ ∷ es) = handlers_in g es

  -- The topics that are subscribed to.
  abbrev pub topics : List (Entity Handler) → List String
  topics [] = []
  topics (subscription topic h g ∷ es) = topic ∷ topics es
  topics (_ ∷ es) = topics es

  -- The services of other nodes that are called.
  abbrev pub called : List (Entity Handler) → List String
  called [] = []
  called (client name g ∷ es) = name ∷ called es
  called (_ ∷ es) = called es

  -- Whether callbacks of one group run in turn. A group that was never created says nothing.
  abbrev runs_in_turn : Group → List (Entity Handler) → Bool
  runs_in_turn g [] = false
  runs_in_turn g (callback_group g' mutually_exclusive ∷ es) =
      let rest = runs_in_turn g es in if same_group g g' then true else rest
  runs_in_turn g (callback_group g' reentrant ∷ es) =
      let rest = runs_in_turn g es in if same_group g g' then false else rest
  runs_in_turn g (_ ∷ es) = runs_in_turn g es

  -- Whether a callback of the second group may run while one of the first group does.
  abbrev may_overlap : Executor → List (Entity Handler) → Group → Group → Bool
  may_overlap single_threaded es g g' = false
  may_overlap multi_threaded es g g' = not (same_group g g') || not (runs_in_turn g es)

  -- Whether the answer of every client can come in while a callback of the group waits for it.
  abbrev answers_during : Executor → List (Entity Handler) → Group → List (Entity Handler) → Bool
  answers_during x all g [] = true
  answers_during x all g (client name g' ∷ es) = may_overlap x all g g' && answers_during x all g es
  answers_during x all g (action_client name g' ∷ es) =
      may_overlap x all g g' && answers_during x all g es
  answers_during x all g (_ ∷ es) = answers_during x all g es

  -- Whether each group is created before an entity is created in it.
  abbrev groups_first : List Group → List (Entity Handler) → Bool
  groups_first gs [] = true
  groups_first gs (callback_group g type ∷ es) = groups_first (g ∷ gs) es
  groups_first gs (subscription topic h g ∷ es) = known g gs && groups_first gs es
  groups_first gs (publisher topic ∷ es) = groups_first gs es
  groups_first gs (wall_timer period h g ∷ es) = known g gs && groups_first gs es
  groups_first gs (service name h g ∷ es) = known g gs && groups_first gs es
  groups_first gs (client name g ∷ es) = known g gs && groups_first gs es
  groups_first gs (action_client name g ∷ es) = known g gs && groups_first gs es

abbrev pub IsTimeout : ℤ → Type 0
IsTimeout t = (pos 1 ≤ℤ t) × (t ≤ℤ pos 300)

-- The process of a `main` function of this repository.
abbrev pub spun : {Node Handler : Type 0} → Built Node Handler → Process Node Handler
spun b = record { node = b; executor = multi_threaded }

-- A process whose node is in its first state, whose handlers `publishing` run in turn, and whose
-- handler `serving` may wait for any answer.
pub record IsServing {Node Handler : Type 0} (start : Node) (publishing : List Handler)
    (serving : Handler) (p : Process Node Handler) : Type 0 where
  pub starts : p.node.node ≡ start
  pub publishing_handlers : handlers_in topic_cb_group p.node.entities ≡ publishing
  pub publishing_in_turn :
      may_overlap p.executor p.node.entities topic_cb_group topic_cb_group ≡ false
  pub serving_handler : handlers_in clear_faults_service_cb_group p.node.entities ≡ serving ∷ []
  pub serving_in_turn :
      may_overlap p.executor p.node.entities clear_faults_service_cb_group
        clear_faults_service_cb_group
      ≡ false
  pub no_other_handler : handlers_in client_cb_group p.node.entities ≡ []
  pub answered :
      answers_during p.executor p.node.entities clear_faults_service_cb_group p.node.entities ≡ true
  pub groups_created : groups_first [] p.node.entities ≡ true
  pub service_timeout : IsTimeout p.node.service_timeout

pub declare_timeout-IsTimeout :
    (ros : Ros) (name : String) (d : ℤ) (text : String) (t : ℤ)
    → IsRanged ros
    → declare_timeout ros name d text ≡ some t
    → IsTimeout t
unfolding declare_timeout
declare_timeout-IsTimeout ros name d text t ranged e = ranged name d _ t e
