-- ===== src/Places/Tables.antt =====
-- shared/places_mapping.py, the tables: the tag of a layer or of a category, the admin layers and the
-- tags of an address.
use geocoder_fwd.Prelude.{ℕ, List, [], ◌∷◌, String, Dict}

abbrev pub layer_feature : Dict (String × String)
layer_feature =
    ("restaurant", ("amenity", "restaurant"))
    ∷ ("food", ("amenity", "restaurant"))
    ∷ ("meal_takeaway", ("amenity", "fast_food"))
    ∷ ("meal_delivery", ("amenity", "fast_food"))
    ∷ ("cafe", ("amenity", "cafe"))
    ∷ ("bar", ("amenity", "bar"))
    ∷ ("night_club", ("amenity", "nightclub"))
    ∷ ("bakery", ("shop", "bakery"))
    ∷ ("bank", ("amenity", "bank"))
    ∷ ("atm", ("amenity", "atm"))
    ∷ ("finance", ("amenity", "bank"))
    ∷ ("accounting", ("office", "accountant"))
    ∷ ("insurance_agency", ("office", "insurance"))
    ∷ ("hospital", ("amenity", "hospital"))
    ∷ ("health", ("amenity", "clinic"))
    ∷ ("doctor", ("amenity", "doctors"))
    ∷ ("doctors", ("amenity", "doctors"))
    ∷ ("physiotherapist", ("amenity", "doctors"))
    ∷ ("pharmacy", ("amenity", "pharmacy"))
    ∷ ("drugstore", ("amenity", "pharmacy"))
    ∷ ("dentist", ("amenity", "dentist"))
    ∷ ("veterinary_care", ("amenity", "veterinary"))
    ∷ ("school", ("amenity", "school"))
    ∷ ("primary_school", ("amenity", "school"))
    ∷ ("secondary_school", ("amenity", "school"))
    ∷ ("university", ("amenity", "university"))
    ∷ ("library", ("amenity", "library"))
    ∷ ("mosque", ("amenity", "place_of_worship"))
    ∷ ("church", ("amenity", "place_of_worship"))
    ∷ ("synagogue", ("amenity", "place_of_worship"))
    ∷ ("hindu_temple", ("amenity", "place_of_worship"))
    ∷ ("place_of_worship", ("amenity", "place_of_worship"))
    ∷ ("police", ("amenity", "police"))
    ∷ ("fire_station", ("amenity", "fire_station"))
    ∷ ("post_office", ("amenity", "post_office"))
    ∷ ("local_government_office", ("office", "government"))
    ∷ ("government", ("office", "government"))
    ∷ ("city_hall", ("amenity", "townhall"))
    ∷ ("courthouse", ("amenity", "courthouse"))
    ∷ ("embassy", ("amenity", "embassy"))
    ∷ ("office", ("office", "yes"))
    ∷ ("gas_station", ("amenity", "fuel"))
    ∷ ("fuel", ("amenity", "fuel"))
    ∷ ("parking", ("amenity", "parking"))
    ∷ ("car_repair", ("shop", "car_repair"))
    ∷ ("car_dealer", ("shop", "car"))
    ∷ ("car", ("shop", "car"))
    ∷ ("car_wash", ("amenity", "car_wash"))
    ∷ ("car_rental", ("amenity", "car_rental"))
    ∷ ("lodging", ("tourism", "hotel"))
    ∷ ("museum", ("tourism", "museum"))
    ∷ ("tourist_attraction", ("tourism", "attraction"))
    ∷ ("zoo", ("tourism", "zoo"))
    ∷ ("art_gallery", ("tourism", "gallery"))
    ∷ ("campground", ("tourism", "camp_site"))
    ∷ ("park", ("leisure", "park"))
    ∷ ("stadium", ("leisure", "stadium"))
    ∷ ("gym", ("leisure", "fitness_centre"))
    ∷ ("spa", ("leisure", "spa"))
    ∷ ("amusement_park", ("leisure", "amusement_arcade"))
    ∷ ("movie_theater", ("amenity", "cinema"))
    ∷ ("shopping_mall", ("shop", "mall"))
    ∷ ("supermarket", ("shop", "supermarket"))
    ∷ ("grocery_or_supermarket", ("shop", "supermarket"))
    ∷ ("convenience_store", ("shop", "convenience"))
    ∷ ("department_store", ("shop", "department_store"))
    ∷ ("home_goods_store", ("shop", "houseware"))
    ∷ ("furniture_store", ("shop", "furniture"))
    ∷ ("hardware_store", ("shop", "hardware"))
    ∷ ("electronics_store", ("shop", "electronics"))
    ∷ ("clothing_store", ("shop", "clothes"))
    ∷ ("clothes", ("shop", "clothes"))
    ∷ ("shoe_store", ("shop", "shoes"))
    ∷ ("jewelry_store", ("shop", "jewelry"))
    ∷ ("book_store", ("shop", "books"))
    ∷ ("florist", ("shop", "florist"))
    ∷ ("bicycle_store", ("shop", "bicycle"))
    ∷ ("pet_store", ("shop", "pet"))
    ∷ ("liquor_store", ("shop", "alcohol"))
    ∷ ("beauty_salon", ("shop", "beauty"))
    ∷ ("beauty", ("shop", "beauty"))
    ∷ ("hair_care", ("shop", "hairdresser"))
    ∷ ("hairdresser", ("shop", "hairdresser"))
    ∷ ("store", ("shop", "yes"))
    ∷ ("travel_agency", ("shop", "travel_agency"))
    ∷ ("real_estate_agency", ("office", "estate_agent"))
    ∷ ("lawyer", ("office", "lawyer"))
    ∷ ("airport", ("aeroway", "aerodrome"))
    ∷ ("subway_station", ("railway", "station"))
    ∷ ("train_station", ("railway", "station"))
    ∷ ("transit_station", ("public_transport", "station"))
    ∷ ("bus_station", ("amenity", "bus_station"))
    ∷ []

abbrev pub category_feature : Dict (String × String)
category_feature =
    ("shop", ("shop", "yes"))
    ∷ ("food", ("amenity", "restaurant"))
    ∷ ("health", ("amenity", "clinic"))
    ∷ ("education", ("amenity", "school"))
    ∷ ("religion", ("amenity", "place_of_worship"))
    ∷ ("finance", ("amenity", "bank"))
    ∷ ("accommodation", ("tourism", "hotel"))
    ∷ ("entertainment", ("leisure", "yes"))
    ∷ ("nightlife", ("amenity", "bar"))
    ∷ ("government", ("office", "government"))
    ∷ ("professional", ("office", "yes"))
    ∷ ("transport", ("public_transport", "station"))
    ∷ ("transportation", ("aeroway", "aerodrome"))
    ∷ ("nature", ("leisure", "park"))
    ∷ ("historic", ("historic", "yes"))
    ∷ []

abbrev pub admin_layer : Dict (ℕ × String)
admin_layer =
    ("locality", (8, "city"))
    ∷ ("localadmin", (8, "town"))
    ∷ ("borough", (10, "suburb"))
    ∷ ("neighbourhood", (10, "neighbourhood"))
    ∷ ("region", (4, "state"))
    ∷ ("macroregion", (4, "state"))
    ∷ ("county", (6, "county"))
    ∷ ("macrocounty", (6, "county"))
    ∷ ("country", (2, "country"))
    ∷ ("neighborhood", (10, "neighbourhood"))
    ∷ ("sublocality", (10, "suburb"))
    ∷ ("sublocality_level_1", (10, "suburb"))
    ∷ ("sublocality_level_2", (10, "neighbourhood"))
    ∷ ("sublocality_level_3", (10, "neighbourhood"))
    ∷ ("administrative_area_level_1", (4, "state"))
    ∷ ("administrative_area_level_2", (6, "county"))
    ∷ ("administrative_area_level_3", (7, "region"))
    ∷ ("administrative_area_level_4", (8, "city"))
    ∷ []

abbrev pub address_tag : Dict String
address_tag =
    ("full", "addr:full")
    ∷ ("street", "addr:street")
    ∷ ("suburb", "addr:suburb")
    ∷ ("district", "addr:district")
    ∷ ("city", "addr:city")
    ∷ ("state", "addr:state")
    ∷ ("postcode", "addr:postcode")
    ∷ ("country", "addr:country")
    ∷ ("country_code", "addr:country_code")
    ∷ ("state_code", "addr:state_code")
    ∷ []

abbrev pub generic_layers : List String
generic_layers = "" ∷ "venue" ∷ "point_of_interest" ∷ "poi" ∷ "establishment" ∷ "premise" ∷ []
