-- ===== src/Ros.antt =====
-- What the constructors of the three vendor nodes ask of ROS 2: parameters, callback groups, and the
-- subscriptions, timers, services and clients that run in those groups.
use icon_hwm_controller.Prelude.{
  ℕ, ℤ, pos, String, Bool, true, ◌&&◌, List, [], ◌∷◌, Option, none, some, ◌≡◌, arith, if◌then◌else◌,
}

pub record IntegerRange : Type 0 where
  pub from_value : ℤ
  pub to_value : ℤ

pub record FloatingPointRange (Double : Type 0) : Type 0 where
  pub from_value : Double
  pub to_value : Double

pub record ParameterDescriptor (Range : Type 0) : Type 0 where
  pub description : String
  pub range : Range

-- The middleware. `literal m d` is the number m / 10 ^ d. A declaration gives the value of the
-- parameter, or throws (`none`) when the value that the user set has the wrong type or is refused; a
-- name that is not valid throws too.
pub record Ros : Type 1 where
  pub Double : Type 0
  pub literal : ℕ → ℕ → Double
  pub divide : Double → Double → Double
  pub to_nanoseconds : Double → ℤ
  pub declare_double :
      String → Double → ParameterDescriptor (FloatingPointRange Double) → Option Double
  pub declare_integer : String → ℤ → ParameterDescriptor IntegerRange → Option ℤ
  pub declare_string : String → String → Option String
  pub is_valid_name : String → Bool

infixl 5 ◌>>=◌
abbrev pub ◌>>=◌ {ℓ κ} : {A : Type ℓ} {B : Type κ} → Option A → (A → Option B) → Option B
none >>= f = none
some a >>= f = f a

pub data GroupType : Type 0 where
  mutually_exclusive reentrant : GroupType

-- The three members that hold a callback group.
pub data Group : Type 0 where
  topic_cb_group clear_faults_service_cb_group client_cb_group : Group

-- What a constructor creates. A handler is a member function of the node.
pub data Entity (Handler : Type 0) : Type 0 where
  callback_group : Group → GroupType → Entity Handler
  subscription : String → Handler → Group → Entity Handler
  publisher : String → Entity Handler
  wall_timer : ℤ → Handler → Group → Entity Handler
  service : String → Handler → Group → Entity Handler
  client : String → Group → Entity Handler
  action_client : String → Group → Entity Handler

-- What a constructor leaves: the state that the mutex guards, the timeouts in seconds, and the
-- entities, the oldest first.
pub record Built (Node Handler : Type 0) : Type 0 where
  pub node : Node
  pub service_timeout : ℤ
  pub action_timeout : Option ℤ
  pub entities : List (Entity Handler)

pub data Executor : Type 0 where
  single_threaded multi_threaded : Executor

-- What a `main` function spins until ROS 2 is shut down: a node, and what runs its callbacks.
pub record Process (Node Handler : Type 0) : Type 0 where
  pub node : Built Node Handler
  pub executor : Executor

module _ (ros : Ros) where
  open ros use {Double, literal, divide, to_nanoseconds, is_valid_name}

  -- The parameter that the three nodes declare first.
  unfoldable pub declare_publish_rate : Option Double
  declare_publish_rate = ros.declare_double "publish_rate_hz" (literal 10 0) (record {
    description = "Publish rate of the operational status in Hz.";
    range = record { from_value = literal 1 1; to_value = literal 1000 0 };
  })

  -- A timeout in seconds: its name, default and description.
  unfoldable pub declare_timeout : String → ℤ → String → Option ℤ
  declare_timeout name default_value description = ros.declare_integer name default_value (record {
    description = description;
    range = record { from_value = pos 1; to_value = pos 300 };
  })

  unfoldable pub timer_period : Double → ℤ
  timer_period publish_rate_hz = to_nanoseconds (divide (literal 1 0) publish_rate_hz)

  module _ {Handler : Type 0} where
    abbrev has_valid_name : Entity Handler → Bool
    has_valid_name (callback_group g type) = true
    has_valid_name (subscription topic h g) = is_valid_name topic
    has_valid_name (publisher topic) = is_valid_name topic
    has_valid_name (wall_timer period h g) = true
    has_valid_name (service name h g) = is_valid_name name
    has_valid_name (client name g) = is_valid_name name
    has_valid_name (action_client name g) = is_valid_name name

    have_valid_names : List (Entity Handler) → Bool
    have_valid_names [] = true
    have_valid_names (e ∷ es) = has_valid_name e && have_valid_names es

    -- Creates the entities in this order, or throws at the first name that is not valid.
    unfoldable pub create_entities : List (Entity Handler) → Option (List (Entity Handler))
    unfolding have_valid_names
    create_entities es = if have_valid_names es then some es else none

    -- What was created is what was asked for.
    pub create_entities-eq :
        (es : List (Entity Handler)) {created : List (Entity Handler)}
        → create_entities es ≡ some created
        → created ≡ es
    unfolding create_entities
    create_entities-eq es e = ground arith
