-- ===== src/Handles/Types.antt =====
-- `wapi_handle_type_t` and its numbering.
use wapi.Base.{ℕ, ◌≡◌, refl, sym, ap, ◌∙◌, ◌↔◌, Bool, true, List, [], ◌∷◌, get_or, ◌==◌, ==_iff}

pub data HandleType : Type 0 where
  free file directory surface : HandleType
  gpu_instance gpu_adapter gpu_device gpu_queue gpu_surface gpu_texture : HandleType
  gpu_texture_view gpu_buffer gpu_sampler gpu_bind_group gpu_bind_group_layout : HandleType
  gpu_pipeline_layout gpu_shader_module gpu_render_pipeline gpu_command_encoder : HandleType
  gpu_command_buffer gpu_render_pass : HandleType
  audio_device audio_stream preopen_dir io_queue : HandleType
  net_conn net_listener net_stream content crypto_hash_ctx crypto_key : HandleType
  video loaded_module lease input_device menu tray process pipe : HandleType

abbrev all_types : List HandleType
all_types =
    free ∷ file ∷ directory ∷ surface ∷ gpu_instance ∷ gpu_adapter ∷ gpu_device ∷ gpu_queue
    ∷ gpu_surface ∷ gpu_texture ∷ gpu_texture_view ∷ gpu_buffer ∷ gpu_sampler ∷ gpu_bind_group
    ∷ gpu_bind_group_layout ∷ gpu_pipeline_layout ∷ gpu_shader_module ∷ gpu_render_pipeline
    ∷ gpu_command_encoder ∷ gpu_command_buffer ∷ gpu_render_pass ∷ audio_device ∷ audio_stream
    ∷ preopen_dir ∷ io_queue ∷ net_conn ∷ net_listener ∷ net_stream ∷ content ∷ crypto_hash_ctx
    ∷ crypto_key ∷ video ∷ loaded_module ∷ lease ∷ input_device ∷ menu ∷ tray ∷ process ∷ pipe ∷ []

-- The value of the enumerator.
unfoldable pub number : HandleType → ℕ
number free = 0
number file = 1
number directory = 2
number surface = 3
number gpu_instance = 4
number gpu_adapter = 5
number gpu_device = 6
number gpu_queue = 7
number gpu_surface = 8
number gpu_texture = 9
number gpu_texture_view = 10
number gpu_buffer = 11
number gpu_sampler = 12
number gpu_bind_group = 13
number gpu_bind_group_layout = 14
number gpu_pipeline_layout = 15
number gpu_shader_module = 16
number gpu_render_pipeline = 17
number gpu_command_encoder = 18
number gpu_command_buffer = 19
number gpu_render_pass = 20
number audio_device = 21
number audio_stream = 22
number preopen_dir = 23
number io_queue = 24
number net_conn = 25
number net_listener = 26
number net_stream = 27
number content = 28
number crypto_hash_ctx = 29
number crypto_key = 30
number video = 31
number loaded_module = 32
number lease = 33
number input_device = 34
number menu = 35
number tray = 36
number process = 37
number pipe = 38

get_or-number : (t : HandleType) → get_or all_types (number t) free ≡ t
unfolding number
get_or-number free = refl
get_or-number _ = refl

-- The C `==` on two types.
unfoldable pub same_type : HandleType → HandleType → Bool
same_type s t = number s == number t

pub same_type_iff : (s t : HandleType) → (same_type s t ≡ true) ↔ (s ≡ t)
unfolding same_type
same_type_iff s t = (
  λ h.
      sym (get_or-number s)
      ∙ ap (λ n. get_or all_types n free) ((==_iff (number s) (number t)).0 h)
      ∙ get_or-number t,
  λ e. (==_iff (number s) (number t)).1 (ap number e),
)
