-- ===== src/Pricing/Tables.antt =====
-- The limits and market windows of backend/app/services/pricing_quality.py.
use ai_repo.Prelude.{ℕ, String, List, [], ◌∷◌}
use ai_repo.Runtime.{Builtins}

-- What a market window holds: normal low and high, hard low and high
pub record Window (F : Type 0) : Type 0 where
  pub normal_low : F
  pub normal_high : F
  pub hard_low : F
  pub hard_high : F

-- One of the branches on the category: the name of its key among the specs, its name in the messages, the
-- family that has windows, and these in USD and SAR
pub record Market (F : Type 0) : Type 0 where
  pub key_name : String
  pub label : String
  pub family : String
  pub usd : Window F
  pub sar : Window F

module _ {F : Type 0} ⦃py : Builtins F⦄ where
  abbrev whole : ℕ → F
  whole n = py.literal n 0

  abbrev limits : ℕ → ℕ → F × F
  limits low high = (whole low, whole high)

  -- PRICE_LIMITS_BY_CATEGORY_USD
  unfoldable pub price_limits : List (String × (F × F))
  price_limits =
      ("CPU", limits 25 5000)
      ∷ ("GPU", limits 45 10000)
      ∷ ("Motherboard", limits 35 2500)
      ∷ ("RAM", limits 10 2000)
      ∷ ("Storage", limits 10 3000)
      ∷ ("PSU", limits 20 1500)
      ∷ ("Case", limits 20 2000)
      ∷ ("Cooler", limits 8 1200)
      ∷ ("Monitor", limits 45 10000)
      ∷ ("Keyboard", limits 8 1000)
      ∷ ("Mouse", limits 5 700)
      ∷ ("Headset", limits 8 1500)
      ∷ ("Capture Card", limits 20 2500)
      ∷ ("Fans", limits 3 500)
      ∷ ("Custom Cooling", limits 5 2500)
      ∷ ("Accessories", limits 1 1500)
      ∷ []

  -- SPEC_LIMITS
  unfoldable pub spec_limits : List (String × (F × F))
  spec_limits =
      ("tdp_w", limits 3 800)
      ∷ ("board_power_w", limits 10 1000)
      ∷ ("continuous_wattage", limits 150 2500)
      ∷ ("wattage", limits 150 2500)
      ∷ ("length_mm", limits 20 700)
      ∷ ("width_mm", limits 10 350)
      ∷ ("height_mm", limits 1 350)
      ∷ ("vram_gb", limits 1 256)
      ∷ ("capacity_gb", limits 1 262144)
      ∷ ("speed_mt_s", limits 800 12000)
      ∷ ("speed_mhz", limits 800 12000)
      ∷ ("refresh_hz", limits 30 1000)
      ∷ ("size_in", limits 5 80)
      ∷ ("size_mm", limits 20 1000)
      ∷ []

  abbrev window : ℕ → ℕ → ℕ → ℕ → Window F
  window low high hard_low hard_high = record {
    normal_low = whole low;
    normal_high = whole high;
    hard_low = whole hard_low;
    hard_high = whole hard_high;
  }

  abbrev market : (key_name label family : String) → (usd sar : Window F) → Market F
  market key_name label family usd sar = record {
    key_name = key_name;
    label = label;
    family = family;
    usd = usd;
    sar = sar;
  }

  -- The tables of price windows, by category
  unfoldable pub markets : List (String × Market F)
  markets =
      (
        "GPU",
        market "gpu_family_key" "gpu_family" "NVIDIA_GEFORCE_RTX_4070_SUPER"
            (window 450 900 325 1050) (window 1700 3600 1200 4600),
      )
      ∷ (
        "CPU",
        market "cpu_model_key" "cpu_model" "AMD_RYZEN_7_7800X3D" (window 300 550 220 700)
            (window 1100 2200 800 3000),
      )
      ∷ (
        "Storage",
        market "storage_model_key" "storage_model" "SAMSUNG_990_PRO_2TB_NVME_M2"
            (window 110 260 75 360) (window 450 1200 300 2200),
      )
      ∷ (
        "RAM",
        market "ram_family_key" "ram_family" "RAM_DDR5_32GB_6000" (window 75 190 45 300)
            (window 280 1000 170 2300),
      )
      ∷ (
        "PSU",
        market "psu_family_key" "psu_family" "PSU_850W_GOLD_FULLY_MODULAR" (window 90 220 55 350)
            (window 330 950 220 1600),
      )
      ∷ []

-- The categories whose listings must be of one type, with the type and the reason
unfoldable pub standalone_types : List (String × (String × String))
standalone_types =
    ("GPU", ("standalone_gpu", "gpu_listing_not_standalone_graphics_card"))
    ∷ ("CPU", ("standalone_cpu", "cpu_listing_not_standalone_processor"))
    ∷ ("Storage", ("standalone_storage", "storage_listing_not_standalone_internal_ssd"))
    ∷ ("RAM", ("standalone_ram", "ram_listing_not_standalone_desktop_memory_kit"))
    ∷ ("PSU", ("standalone_psu", "psu_listing_not_standalone_desktop_power_supply"))
    ∷ ("Case", ("standalone_case", "case_listing_not_standalone_pc_chassis"))
    ∷ ("Cooler", ("standalone_cooler", "cooler_listing_not_standalone_cpu_cooler"))
    ∷ []

-- The keys of REQUIRED_IDENTITY_SIGNALS_BY_CATEGORY; each asks for the model
unfoldable pub identity_categories : List String
identity_categories =
    "CPU" ∷ "GPU" ∷ "Motherboard" ∷ "RAM" ∷ "Storage" ∷ "PSU" ∷ "Monitor" ∷ "Keyboard" ∷ "Mouse"
    ∷ "Headset" ∷ "Capture Card" ∷ []
