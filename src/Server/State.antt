-- ===== src/Server/State.antt =====
-- The state of `FileMailboxHandler` in src/titlani/server/handler.py: its mailbox directories, the
-- subscription tokens, the times of the last automatic replies and the tasks it has started.
pub mod Dict
use titlani.Base.{ℕ, Bool, List, [], ◌∷◌, Option, none, some, if◌then◌else◌}
use titlani.Str.Core.{Text, Bytes, same}
use titlani.Runtime.{Runtime}
use titlani.Content.Address.{MisfinAddress}
use titlani.Content.Gemmail.{GemmailMessage}
use titlani.Server.Subscription.{TokenStore}
use titlani.Server.Lists.{File}

-- An entry of `.meta.json`: whether the sender was verified, and by which checks; a check has its
-- outcome, whether it came from the cache, and its reason.
pub record MetaEntry : Type 0 where
  pub verified : Bool
  pub checks : List (Text × Bool × Bool × Option Text)

-- `.meta.json`: not there, not to be read as JSON, or an index by the stem of the message's file.
pub data MetaFile : Type 0 where
  absent corrupt : MetaFile
  index : List (Text × MetaEntry) → MetaFile

-- One mailbox directory.
pub record Mailbox : Type 0 where
  pub blocked : File
  pub subscribers : File
  pub auto_reply : File
  pub messages : List (Text × Bytes)
  pub meta : MetaFile

-- A coroutine that `asyncio.ensure_future` has started.
pub data Task (T : Type 0) : Type 0 where
  send_auto_reply : Text → GemmailMessage T → Task T
  send_confirmation : Text → Text → Text → Task T
  forward_to_list : Text → GemmailMessage T → List Text → Task T

-- What the handling of one message reads and writes: its mailbox, and the handler's own fields.
pub record Local (T : Type 0) : Type 0 where
  pub box : Mailbox
  pub subscription_store : Option TokenStore
  pub auto_reply_last_sent : List (Text × ℕ)
  pub tasks : List (Task T)

pub record State (T : Type 0) : Type 0 where
  pub mailboxes : List (Text × Mailbox)
  pub subscription_store : Option TokenStore
  pub auto_reply_last_sent : List (Text × ℕ)
  pub tasks : List (Task T)

-- A dictionary with text keys, in the order of insertion.
module _ {ℓ} {V : Type ℓ} where
  unfoldable pub lookup : Text → List (Text × V) → Option V
  lookup k [] = none
  lookup k ((j, v) ∷ m) = let rest = lookup k m in if same j k then some v else rest

  unfoldable pub insert : Text → V → List (Text × V) → List (Text × V)
  insert k v [] = (k, v) ∷ []
  insert k v ((j, w) ∷ m) =
      let rest = insert k v m in if same j k then (j, v) ∷ m else (j, w) ∷ rest

-- The parameters of the constructor of `FileMailboxHandler` that do not change, with what the file
-- system answers for the path of a mailbox: its resolved path (`none`: an error), to be compared
-- with the resolved mailbox directory.
pub record Config : Type 0 where
  pub hostname : Text
  pub resolved_dir : Text
  pub resolve : Text → Option Text
  pub recipient_fingerprint_fn : Option (Text → Option Text)
  pub identity_cert_fingerprint : Text
  -- the encryption manager's `encrypt`, where it has a key for the mailbox
  pub encryptor : Text → Option (Bytes → Bytes)
  pub auto_reply_enabled : Bool
  pub auto_reply_interval : ℕ
  pub lists_enabled : Bool
  pub lists_archive : Bool

-- The clock as one call reads it, in microseconds, and the next random token.
pub record Readings : Type 0 where
  pub prepared_at : ℕ
  pub command_at : ℕ
  pub stored_at : ℕ
  pub replied_at : ℕ
  pub next_token : Text
