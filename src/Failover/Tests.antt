-- ===== src/Failover/Tests.antt =====
-- A server at two addresses, of which the first has gone, and the theorems on requests to it.
use local_cast.Base.{
  ℕ, ◌≡◌, ◌≢◌, refl, true, false, List, [], ◌∷◌, ◌++◌, some, Text, codes, text_eq, starts_with,
  if◌then◌else◌,
}
use local_cast.Failover.{
  Reply, answered, failed, network_error, type_error, named, is_network_failure, Transport, got,
  thrown, normalise_base_url, new_transport, candidates, attempt,
}
use local_cast.Failover.Candidates.{origins_of}
use local_cast.Failover.Reaching.{is_silent, Reached, attempt-Reached}
use local_cast.Failover.Changes.{Leads, Call, asked, signed_out, calls, calls_reported}
use local_cast.Sets.{has}

abbrev home : Text
home = codes "https://a"

abbrev local : Text
local = codes "https://b"

-- Only the second address answers.
abbrev run : Text → Reply ℕ
run url = if starts_with url local then answered 200 else failed false type_error

abbrev nobody : Text → Reply ℕ
nobody url = failed false network_error

abbrev phone : Transport
phone = new_transport (codes "https://a//")

abbrev path : Text
path = codes "api/me"

abbrev moved : Transport
moved = record {
  primary = home;
  active = local;
  events = record { origin = local; previous = home } ∷ [];
}

followed_over : attempt run (home ++ (b'/' ∷ path)) (codes "https://b/" ∷ []) phone ≡ record {
  transport = moved;
  outcome = got 200;
  sent = codes "https://a/api/me" ∷ codes "https://b/api/me" ∷ [];
}
unfolding attempt new_transport
followed_over = refl

somewhere_else : attempt nobody (codes "https://c/x") (codes "https://b/" ∷ []) phone ≡ record {
  transport = phone;
  outcome = thrown (some network_error);
  sent = codes "https://c/x" ∷ [];
}
unfolding attempt new_transport
somewhere_else = refl

backed_out : is_network_failure true (named (codes "AbortError")) ≡ false
unfolding is_network_failure
backed_out = refl

timed_out : is_network_failure false (named (codes "TimeoutError")) ≡ true
unfolding is_network_failure
timed_out = refl

home_filled : phone.primary ≢ []
unfolding new_transport
home_filled = λ e. cc

local_filled : local ≢ []
local_filled = λ e. cc

local_there : has local (origins_of phone (codes "https://b/" ∷ [])) ≡ true
unfolding has new_transport normalise_base_url text_eq
local_there = refl

local_answers : is_silent (run (local ++ (b'/' ∷ path))) ≡ false
unfolding starts_with
local_answers = refl

attempt-Reached_example :
    Reached run
      (b'/' ∷ path)
      phone
      (candidates phone (codes "https://b/" ∷ []))
      (attempt run (phone.primary ++ (b'/' ∷ path)) (codes "https://b/" ∷ []) phone)
attempt-Reached_example =
    attempt-Reached run phone (codes "https://b/" ∷ []) path local home_filled local_filled
      local_there local_answers

abbrev visit : List (Call ℕ)
visit =
    asked (home ++ (b'/' ∷ path)) (codes "https://b/" ∷ []) run
    ∷ asked (home ++ (b'/' ∷ path)) [] run
    ∷ signed_out
    ∷ []

calls_reported_example :
    Leads
      (normalise_base_url (codes "https://a//"))
      (calls (new_transport (codes "https://a//")) visit).events
      (calls (new_transport (codes "https://a//")) visit).active
calls_reported_example = calls_reported (codes "https://a//") visit
