-- ===== src/Core/Event.antt =====
-- crates/ferroq-core/src/event.rs: the events that adapters push through the gateway.
use ferroq.Prelude.{String, List, Option}
use ferroq.Prelude.Int.{ℤ}
use ferroq.Core.External.{External}
use ferroq.Core.Message.{MessageSegment}

pub data MessageType : Type 0 where
  private group : MessageType

pub record Sender : Type 0 where
  pub user_id : ℤ
  pub nickname : String
  pub card : Option String
  pub sex : Option String
  pub age : Option ℤ
  pub area : Option String
  pub level : Option String
  pub role : Option String
  pub title : Option String

pub record MessageEvent (F : External) : Type 0 where
  pub id : F.Uuid
  pub time : F.DateTime
  pub self_id : ℤ
  pub message_type : MessageType
  pub sub_type : String
  pub message_id : ℤ
  pub user_id : ℤ
  pub group_id : Option ℤ
  pub message : List MessageSegment
  pub raw_message : String
  pub sender : Sender
  pub font : ℤ

pub record NoticeEvent (F : External) : Type 0 where
  pub id : F.Uuid
  pub time : F.DateTime
  pub self_id : ℤ
  pub notice_type : String
  pub sub_type : String
  pub extra : F.Value

pub record RequestEvent (F : External) : Type 0 where
  pub id : F.Uuid
  pub time : F.DateTime
  pub self_id : ℤ
  pub request_type : String
  pub sub_type : String
  pub extra : F.Value

pub record MetaEvent (F : External) : Type 0 where
  pub id : F.Uuid
  pub time : F.DateTime
  pub self_id : ℤ
  pub meta_event_type : String
  pub sub_type : String
  pub extra : F.Value

pub data Event (F : External) : Type 0 where
  message : MessageEvent F → Event F
  notice : NoticeEvent F → Event F
  request : RequestEvent F → Event F
  meta : MetaEvent F → Event F

module _ {F : External} where
  unfoldable pub self_id : Event F → ℤ
  self_id (message e) = e.self_id
  self_id (notice e) = e.self_id
  self_id (request e) = e.self_id
  self_id (meta e) = e.self_id

  unfoldable pub time : Event F → F.DateTime
  time (message e) = e.time
  time (notice e) = e.time
  time (request e) = e.time
  time (meta e) = e.time
