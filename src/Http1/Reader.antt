-- ===== src/Http1/Reader.antt =====
-- The state of the body reader, http1/body.go: limits, framing, counters and the chunk state.
use simdhttp.Common.{ℕ, ◌*◌, ◌^◌, Bool, false, Option, none, some, List, [], if◌then◌else◌, Bytes}
use simdhttp.Common.Int64.{lt64}
use simdhttp.Http1.Conn.{Conn}
use simdhttp.Http1.Errors.{Error, body_too_large}
use simdhttp.Http1.Framing.{Profile, compatible, strict, Kind, kind_none, kind_fixed, kind_chunked}
use simdhttp.Http1.Framing.{Framing}

pub record Limits : Type 0 where
  pub max_body_size : ℕ
  pub max_chunk_size_line : ℕ
  pub max_chunk_extension_len : ℕ
  pub max_trailer_count : ℕ
  pub max_trailer_value_len : ℕ
  pub max_drain_size : ℕ

unfoldable pub default_limits : Profile → Limits
default_limits strict = record {
  max_body_size = 4 * 2 ^ 20;
  max_chunk_size_line = 4 * 2 ^ 10;
  max_chunk_extension_len = 1 * 2 ^ 10;
  max_trailer_count = 50;
  max_trailer_value_len = 64 * 2 ^ 10;
  max_drain_size = 256 * 2 ^ 10;
}
default_limits compatible = record {
  max_body_size = 32 * 2 ^ 20;
  max_chunk_size_line = 8 * 2 ^ 10;
  max_chunk_extension_len = 4 * 2 ^ 10;
  max_trailer_count = 100;
  max_trailer_value_len = 1 * 2 ^ 20;
  max_drain_size = 1 * 2 ^ 20;
}

pub data ChunkState : Type 0 where
  cs_header cs_data cs_data_crlf cs_trailers cs_done : ChunkState

-- The int64 counters are bit patterns. `trailers` holds the fields in the order of `Header.Add`.
-- The scratch `line` is left out: what it holds is read before the next line is.
pub record BodyReader : Type 0 where
  pub conn : Conn
  pub lim : Limits
  pub kind : Kind
  pub remain : ℕ
  pub served : ℕ
  pub consumed : ℕ
  pub err : Option Error
  pub closed : Bool
  pub close_err : Option Error
  pub drained : Bool
  pub state : ChunkState
  pub chunk_remain : ℕ
  pub trailers : List (Bytes × Bytes)

-- A reader with the zero values.
abbrev fresh : Conn → Limits → Kind → ℕ → Option Error → BodyReader
fresh c l k n e = record {
  conn = c;
  lim = l;
  kind = k;
  remain = n;
  served = 0;
  consumed = 0;
  err = e;
  closed = false;
  close_err = none;
  drained = false;
  state = cs_header;
  chunk_remain = 0;
  trailers = [];
}

abbrev start : Kind → Conn → Framing → Limits → BodyReader
start kind_fixed c f l =
    fresh c l kind_fixed f.length
      (if lt64 l.max_body_size f.length then some body_too_large else none)
start kind_chunked c f l = fresh c l kind_chunked 0 none
start kind_none c f l = fresh c l kind_none 0 none

unfoldable pub new_body_reader : Conn → Framing → Limits → BodyReader
new_body_reader c f l = start f.kind c f l
