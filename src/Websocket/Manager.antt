-- ===== src/Websocket/Manager.antt =====
-- lib/websocket/clientmanager.go: the connections of the server, by user. A map is a function into
-- options, a nil slice the empty list; the lock is held for the whole of each method. The functions
-- of lib/ints/ints.go that it calls are here too.
pub mod Users
use share.Base.{
  ℕ, Bool, true, false, List, [], ◌∷◌, ◌++◌, Option, none, some, ltb, ◌==◌, if◌then◌else◌,
}
use share.Websocket.Frame.{Frame}
use share.Websocket.Frames.{Frames}
use share.Websocket.Server.{Conn, fin_frames}

-- `ints.IsExist`.
unfoldable pub is_exist : List ℕ → ℕ → Bool
is_exist [] v = false
is_exist (d ∷ ds) v = if d == v then true else is_exist ds v

-- `ints.Remove`, the new slice.
unfoldable pub remove_int : List ℕ → ℕ → List ℕ
remove_int [] v = []
remove_int (d ∷ ds) v = if d == v then ds else d ∷ remove_int ds v

-- A map with the value at one key changed; `none` deletes it.
unfoldable pub put : {A : Type 0} → (ℕ → Option A) → ℕ → Option A → ℕ → Option A
put m k v j = if j == k then v else m j

-- A context is the user that it names, 0 where it names none.
pub record ClientManager : Type 0 where
  pub all : List ℕ
  pub conns : ℕ → Option (List ℕ)
  pub ctx : ℕ → Option ℕ
  pub frame : ℕ → Option Frame
  pub frames : ℕ → Option Frames

unfoldable pub new_client_manager : ClientManager
new_client_manager = record {
  all = [];
  conns = λ k. none;
  ctx = λ k. none;
  frame = λ k. none;
  frames = λ k. none;
}

abbrev pub list_of : Option (List ℕ) → List ℕ
list_of none = []
list_of (some l) = l

unfoldable pub all_conns : ClientManager → List ℕ
all_conns cls = cls.all

unfoldable pub conns_of : ClientManager → ℕ → List ℕ
conns_of cls uid = list_of (cls.conns uid)

unfoldable pub context : ClientManager → ℕ → Option ℕ
context cls conn = cls.ctx conn

unfoldable pub get_frame : ClientManager → ℕ → Option Frame
get_frame cls conn = cls.frame conn

unfoldable pub get_frames : ClientManager → ℕ → Option Frames
get_frames cls conn = cls.frames conn

-- A nil frame is `none`.
unfoldable pub set_frame : ClientManager → ℕ → Option Frame → ClientManager
unfolding put
set_frame cls conn f = record cls { frame = put cls.frame conn f }

unfoldable pub set_frames : ClientManager → ℕ → Option Frames → ClientManager
unfolding put
set_frames cls conn fs = record cls { frames = put cls.frames conn fs }

abbrev pub none_if_nil : List ℕ → Option (List ℕ)
none_if_nil [] = none
none_if_nil (x ∷ xs) = some (x ∷ xs)

-- The lists of connections after `conn` leaves the user that its context names.
unfoldable pub leave : ClientManager → ℕ → Option ℕ → ℕ → Option (List ℕ)
unfolding put remove_int
leave cls conn none = cls.conns
leave cls conn (some uid) = if ltb 0 uid then go (cls.conns uid) else cls.conns
  where
    go : Option (List ℕ) → ℕ → Option (List ℕ)
    go none = cls.conns
    go (some l) = put cls.conns uid (none_if_nil (remove_int l conn))

unfoldable pub remove : ClientManager → ℕ → ClientManager
unfolding put remove_int leave
remove cls conn = record {
  all = remove_int cls.all conn;
  conns = leave cls conn (cls.ctx conn);
  ctx = put cls.ctx conn none;
  frame = put cls.frame conn none;
  frames = put cls.frames conn none;
}

unfoldable pub add : ClientManager → ℕ → ℕ → ClientManager
unfolding put remove is_exist
add cls uid conn =
    let c = remove cls conn in
    record c {
      all = if is_exist c.all conn then c.all else c.all ++ (conn ∷ []);
      ctx = put c.ctx conn (some uid);
      conns =
          if ltb 0 uid
          then put c.conns uid (some (list_of (c.conns uid) ++ (conn ∷ [])))
          else c.conns;
    }
