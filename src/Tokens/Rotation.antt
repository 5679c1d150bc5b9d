-- ===== src/Tokens/Rotation.antt =====
-- apps/server/src/auth/tokens.ts: a refresh token is redeemed once, and its successor is good.
use local_cast.Base.{◌≡◌, refl, [], ◌∷◌, ◌++◌, some, Text, arith}
use local_cast.Js.Trim.{Without}
use local_cast.Maps.{get, get-set_self}
use local_cast.Tokens.{DeviceRow, Devices, dot, cut, update}

-- A text without a dot is cut off at the first dot behind it.
pub cut-append : (a b : Text) → Without dot a → cut (a ++ (dot ∷ b)) ≡ some (a, b)
unfolding cut
cut-append [] b w = refl
cut-append (c ∷ a) b (h, w) = ground (arith, cut-append a b w)

pub update_lem :
    (db : Devices) (id : Text) (d : DeviceRow) (f : DeviceRow → DeviceRow)
    → get id db ≡ some d
    → get id (update db id f) ≡ some (f d)
unfolding update
update_lem db id d f found = rw (found, update) (get-set_self id (f d) db)
