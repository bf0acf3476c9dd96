-- ===== src/Protocol/Payload.antt =====
-- `cmf_verify_parse`: the public key, signature and message packed into a verify request.
pub mod Laws
use cmfuzz.Base.{
  ℕ, zero, suc, ◌+◌, ◌-◌, ◌*◌, ◌^◌, List, [], ◌∷◌, ◌++◌, Option, none, some, ltb, if◌then◌else◌,
  take, drop, length,
}
use cmfuzz.Protocol.Vec.{be16}

-- The three views into the payload.
pub record Views : Type 0 where
  pub pub_key : List ℕ
  pub sig : List ℕ
  pub msg : List ℕ

-- `cmf_verify_parse` from the signature's length field at `off` on.
pub signature_views : List ℕ → ℕ → List ℕ → Option Views
signature_views p off key =
    let sl = be16 p off in
    let behind = off + 2 in
    if ltb (length p) (behind + sl)
    then none
    else some (record {
      pub_key = key;
      sig = take sl (drop behind p);
      msg = take (length p - (behind + sl)) (drop (behind + sl) p);
    })

-- `none` is the -1. `plen` is the length of the list.
pub verify_parse : List ℕ → Option Views
unfolding signature_views
verify_parse p =
    if ltb (length p) 2
    then none
    else (let pl = be16 p 0 in
        if ltb (length p) (2 + pl + 2)
        then none
        else signature_views p (2 + pl) (take pl (drop 2 p)))
