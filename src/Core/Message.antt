-- ===== src/Core/Message.antt =====
-- crates/ferroq-core/src/message.rs: message segments and their CQ-code text.
use Prim.Native.String.{◌++◌}
use ferroq.Prelude.{String, List, [], ◌∷◌, Option}

pub data MessageSegment : Type 0 where
  text : String → MessageSegment
  image : String → Option String → MessageSegment
  at : String → MessageSegment
  face : String → MessageSegment
  reply : String → MessageSegment
  voice : String → Option String → MessageSegment
  video : String → Option String → MessageSegment
  forward : String → MessageSegment
  json : String → MessageSegment
  xml : String → MessageSegment
  poke : String → String → MessageSegment
  unknown : MessageSegment

-- The text that one segment adds.
unfoldable pub segment_to_raw : MessageSegment → String
segment_to_raw (text t) = t
segment_to_raw (at qq) = "[CQ:at,qq=" ++ qq ++ "]"
segment_to_raw (image file _) = "[CQ:image,file=" ++ file ++ "]"
segment_to_raw (face id) = "[CQ:face,id=" ++ id ++ "]"
segment_to_raw (reply id) = "[CQ:reply,id=" ++ id ++ "]"
segment_to_raw _ = "[CQ:unknown]"

-- The loop of `segments_to_raw_string`, over its accumulator `result`.
unfoldable pub push_segments : String → List MessageSegment → String
push_segments result [] = result
push_segments result (seg ∷ segments) = push_segments (result ++ segment_to_raw seg) segments

unfoldable pub segments_to_raw_string : List MessageSegment → String
unfolding push_segments
segments_to_raw_string segments = push_segments "" segments
