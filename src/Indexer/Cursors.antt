-- ===== src/Indexer/Cursors.antt =====
-- The text of a cursor of the catalog and of the activity: `encodeOpaqueCursor` and `decodeOpaqueCursor` of
-- offchain/indexer/src/store.ts, and `marketCursor` and `activityCursor` of memory-store.ts. Regular
-- expressions, JSON, base64url, `BigInt` and `getAddress` of viem are arguments.
use cpredict.Prelude.{
  ℕ, ◌≡◌, ◌≤◌, arith, Bool, true, Option, none, some, leb, if◌then◌else◌, Result, ok, err,
}
use cpredict.Indexer.Types.{StoreError, invalid_cursor}

pub record MarketCursor : Type 0 where
  pub block : ℕ
  pub market : ℕ

pub record ActivityCursor : Type 0 where
  pub block : ℕ
  pub transaction_hash : ℕ
  pub log_index : ℕ

-- A field of a parsed object: a value of the type that is asked for, or anything else, `undefined` for
-- a missing field included.
pub data JsonField (X : Type 0) : Type 0 where
  value : X → JsonField X
  other : JsonField X

-- What a cursor parses to, as far as the fields that are read go.
pub data MarketJson (X : Type 0) : Type 0 where
  no_market : MarketJson X
  market_fields : JsonField X → JsonField X → MarketJson X

-- A log index that is negative or no integer is `other`.
pub data ActivityJson (X : Type 0) : Type 0 where
  no_activity : ActivityJson X
  activity_fields : JsonField X → JsonField X → JsonField ℕ → ActivityJson X

-- `T` is the text of a cursor, and `X` a text within it.
pub record Codec (T X : Type 0) : Type 0 where
  -- `/^[A-Za-z0-9_-]{1,256}$/.test(value)`
  pub opaque : T → Bool
  -- `JSON.parse(Buffer.from(value, "base64url").toString("utf8"))`, or `none` where it throws
  pub parse_market : T → Option (MarketJson X)
  pub parse_activity : T → Option (ActivityJson X)
  -- `Buffer.from(JSON.stringify(value), "utf8").toString("base64url")` of an object of these fields
  pub stringify_market : X → X → T
  pub stringify_activity : X → X → ℕ → T
  -- `BigInt(text)` for a text of `/^\d+$/`, and `n.toString()`
  pub digits : X → Option ℕ
  pub print : ℕ → X
  -- `getAddress(text)`, or `none` where it throws, and the text of an address
  pub get_address : X → Option ℕ
  pub address_text : ℕ → X
  -- the hash of a text of `/^0x[0-9a-fA-F]{64}$/`, and the text of a hash
  pub get_hash : X → Option ℕ
  pub hash_text : ℕ → X

-- The object that a text parses to.
unfoldable pub decode_opaque_cursor :
    {T J : Type 0} → (T → Bool) → (T → Option J) → T → Result StoreError J
decode_opaque_cursor opaque parse text =
    if opaque text
    then (elim (parse text) [ none ↦ err invalid_cursor | some json ↦ ok json ])
    else err invalid_cursor

-- `Number.MAX_SAFE_INTEGER`
abbrev pub max_log_index : ℕ
max_log_index = 9_007_199_254_740_991

module _ {T X : Type 0} (codec : Codec T X) where
  -- `BigInt(decoded.block)` and `getAddress(decoded.market)`
  abbrev market_place_of : Option ℕ → Option ℕ → Result StoreError MarketCursor
  market_place_of (some block) (some market) = ok (record { block = block; market = market })
  market_place_of _ _ = err invalid_cursor

  abbrev market_in : MarketJson X → Result StoreError MarketCursor
  market_in (market_fields (value block) (value market)) =
      market_place_of (codec.digits block) (codec.get_address market)
  market_in _ = err invalid_cursor

  unfoldable pub market_cursor : T → Result StoreError MarketCursor
  unfolding decode_opaque_cursor
  market_cursor text = elim (decode_opaque_cursor codec.opaque codec.parse_market text) [
    | err x ↦ err x
    | ok json ↦ market_in json
  ]

  abbrev pub encode_market_cursor : MarketCursor → T
  encode_market_cursor c =
      codec.stringify_market (codec.print c.block) (codec.address_text c.market)

  abbrev activity_place_of : Option ℕ → Option ℕ → ℕ → Result StoreError ActivityCursor
  activity_place_of (some block) (some hash) log_index =
      if leb log_index max_log_index
      then ok (record { block = block; transaction_hash = hash; log_index = log_index })
      else err invalid_cursor
  activity_place_of _ _ log_index = err invalid_cursor

  abbrev activity_in : ActivityJson X → Result StoreError ActivityCursor
  activity_in (activity_fields (value block) (value hash) (value log_index)) =
      activity_place_of (codec.digits block) (codec.get_hash hash) log_index
  activity_in _ = err invalid_cursor

  unfoldable pub activity_cursor : T → Result StoreError ActivityCursor
  unfolding decode_opaque_cursor
  activity_cursor text = elim (decode_opaque_cursor codec.opaque codec.parse_activity text) [
    | err x ↦ err x
    | ok json ↦ activity_in json
  ]

  abbrev pub encode_activity_cursor : ActivityCursor → T
  encode_activity_cursor c =
      codec.stringify_activity (codec.print c.block) (codec.hash_text c.transaction_hash)
        c.log_index

  -- The text of the cursor fits the pattern, and its parts are read as they are written.
  pub record MarketReadsBack (c : MarketCursor) : Type 0 where
    pub fits : codec.opaque (encode_market_cursor c) ≡ true
    pub parsed :
        codec.parse_market (encode_market_cursor c)
        ≡ some (market_fields (value (codec.print c.block)) (value (codec.address_text c.market)))
    pub block_read : codec.digits (codec.print c.block) ≡ some c.block
    pub market_read : codec.get_address (codec.address_text c.market) ≡ some c.market

  pub record ActivityReadsBack (c : ActivityCursor) : Type 0 where
    pub fits : codec.opaque (encode_activity_cursor c) ≡ true
    pub parsed :
        codec.parse_activity (encode_activity_cursor c)
        ≡ some (
            activity_fields
              (value (codec.print c.block))
              (value (codec.hash_text c.transaction_hash))
              (value c.log_index))
    pub block_read : codec.digits (codec.print c.block) ≡ some c.block
    pub hash_read : codec.get_hash (codec.hash_text c.transaction_hash) ≡ some c.transaction_hash
    pub safe : c.log_index ≤ max_log_index

  pub market_cursor-encode_market_cursor :
      (c : MarketCursor) → MarketReadsBack c → market_cursor (encode_market_cursor c) ≡ ok c
  unfolding market_cursor decode_opaque_cursor
  market_cursor-encode_market_cursor c h =
      rw (h.fits, h.parsed, h.block_read, h.market_read, market_cursor, decode_opaque_cursor)

  pub activity_cursor-encode_activity_cursor :
      (c : ActivityCursor) → ActivityReadsBack c → activity_cursor (encode_activity_cursor c) ≡ ok c
  unfolding activity_cursor decode_opaque_cursor
  activity_cursor-encode_activity_cursor c h =
      let small : leb c.log_index max_log_index ≡ true = is_small c.log_index h.safe in
      rw (h.fits, h.parsed, h.block_read, h.hash_read, small, activity_cursor, decode_opaque_cursor)
    where
      is_small : (n : ℕ) → n ≤ max_log_index → leb n max_log_index ≡ true
      is_small n k = ground arith
