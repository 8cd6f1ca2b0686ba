-- ===== src/Shipment/Request.antt =====
-- Requests to the tracking page of a shipment and its replies (wms/shipment_tracking_handlers.py). A
-- message is a constructor for its text.
use asf_wms.Prelude.{ℕ, Bool, Option, none, some, if◌then◌else◌}
use asf_wms.Text.{Text}
use asf_wms.Rows.{TrackingStatus}

pub data Action : Type 0 where
  set_disputed resolve_dispute other : Action

pub record User : Type 0 where
  pub pk : ℕ
  pub is_authenticated : Bool
  pub is_staff : Bool

-- `form.cleaned_data`
pub record TrackingForm : Type 0 where
  pub status : TrackingStatus
  pub actor_name : Text
  pub actor_structure : Text
  pub comments : Text

pub data TransitionError : Type 0 where
  not_allowed no_carton not_all_assigned not_all_labeled : TransitionError

pub data Message : Type 0 where
  staff_only marked_disputed dispute_resolved still_disputed updated : Message

-- Where the page sends the user: to the list view, or to the tracking page with its return key.
pub data Redirect : Type 0 where
  to_list : Text → Redirect
  to_tracking : ℕ → Text → Redirect

pub record ReturnTo : Type 0 where
  pub return_to_list : Bool
  pub return_to_view : Text
  pub return_to_key : Text

-- The request, with the form's data if it is valid.
pub record TrackingRequest : Type 0 where
  pub is_post : Bool
  pub action : Action
  pub user : Option User
  pub form : Option TrackingForm
  pub return_to : ReturnTo

-- What a handler answers: a redirect or none, with the message or the error that it leaves.
pub record Reply : Type 0 where
  pub redirect : Option Redirect
  pub message : Option Message
  pub form_error : Option TransitionError

-- An empty view name stands for the default one.
pub redirect_to_tracking : ReturnTo → ℕ → Redirect
redirect_to_tracking r shipment =
    if r.return_to_list then to_list r.return_to_view else to_tracking shipment r.return_to_key

abbrev pub says : TrackingRequest → ℕ → Message → Reply
says q shipment message = record {
  redirect = some (redirect_to_tracking q.return_to shipment);
  message = some message;
  form_error = none;
}

abbrev pub unhandled : Reply
unhandled = record { redirect = none; message = none; form_error = none }
